-- ===== src/System/Pipes/Fifo.antt =====
-- Message pipes are queues: what WhpWriteMessage puts in at one end WhpReadMessage takes out at the
-- other, in order.
use voodoo.Prelude.{
  ℕ, ◌<◌, ◌≡◌, ◌≢◌, refl, sym, ap, ap₂, subst, ◌∙◌, [], ◌∷◌, ◌++◌, true, false, none, arith, ◌==◌,
  if◌then◌else◌, length, get_or, length-set, get_or-set_self, if-true, if-false, ==_refl, ==_ne,
}
use voodoo.System.Types.{
  Core, free, message, message_pipe, MessageObj, PipeEnd, peer, at_end, new_pipe, WhpResult, ok,
  resource_exhausted,
}
use voodoo.System.Table.{lookup, free_handle}
use voodoo.System.Table.Free.{lookup-Live, lookup-free_handle, lookup-slots, pipes-free_handle}
use voodoo.System.Table.Sound.{IsSound, same_table-IsSound, free_handle-IsSound}
use voodoo.System.Signals.{pipe_at}
use voodoo.System.Traps.{collect_trap_events}
use voodoo.System.Traps.Frame.{Collected, Kept, Kept-other}
use voodoo.System.Table.Validity.{is_trap}
use voodoo.System.Traps.Collect.{collect_trap_events-Collected}
use voodoo.System.Messages.{Callbacks, message_of, serialize_message}
use voodoo.System.Pipes.{
  pipe_of, send, send_to, over_quota, pushed, put_pipe, write_serialized, write_message,
}
use voodoo.System.Pipes.Quota.{at_end-set_end}

-- A message that is ready to be sent: serialized, or made without a context.
abbrev pub IsReady : MessageObj → Type 0
IsReady m = (m.committed ≡ true) × (m.serializer ≡ none)

-- Where a send stands: the two handles, and a pipe that is open at both ends.
pub record CanSend (c : Core) (pipe h : ℕ) (e : PipeEnd) (m : MessageObj) : Type 0 where
  pub sound : IsSound c
  pub pipe_slot : lookup c pipe ≡ message_pipe e
  pub message_slot : lookup c h ≡ message m
  pub ready : IsReady m
  pub in_store : e.state < length c.pipes
  pub peer_open : at_end (pipe_at c e.state).closed (peer e.side) ≡ false
  pub self_open : at_end (pipe_at c e.state).closed e.side ≡ false

module _ (cb : Callbacks) (c : Core) (pipe h : ℕ) (e : PipeEnd) (m : MessageObj)
    (v : CanSend c pipe h e m) where
  serialize-ready : serialize_message cb h c ≡ (ok, c)
  unfolding serialize_message
  serialize-ready = rw (ap message_of v.message_slot, serialize_message) (ground arith)

  write-send : write_message cb pipe h c ≡ send e h m c
  unfolding write_message write_serialized send_to
  write-send =
      ap (write_serialized pipe h) serialize-ready
      ∙ ap₂ (λ o n. send_to o n h c) (ap pipe_of v.pipe_slot) (ap message_of v.message_slot)

  -- The core once the message is queued and its handle freed.
  queued : Core
  queued = free_handle (put_pipe c e.state (pushed (pipe_at c e.state) (peer e.side) m)) h

  send-ok :
      over_quota (pipe_at c e.state) (peer e.side) m ≡ false
      → send e h m c ≡ (ok, collect_trap_events queued)
  unfolding send queued
  send-ok q = ground (arith, v)

  send-exhausted :
      over_quota (pipe_at c e.state) (peer e.side) m ≡ true → send e h m c ≡ (resource_exhausted, c)
  unfolding send
  send-exhausted q = ground (arith, v)

  sent : Core
  sent = put_pipe c e.state (pushed (pipe_at c e.state) (peer e.side) m)

  sent-IsSound : IsSound sent
  unfolding sent
  sent-IsSound = same_table-IsSound v.sound refl refl refl

  sent-slot : lookup sent h ≡ message m
  unfolding sent
  sent-slot = lookup-slots c sent h refl ∙ v.message_slot

  queued-IsSound : IsSound queued
  unfolding queued sent
  queued-IsSound = free_handle-IsSound sent h (message m) sent-IsSound sent-slot refl refl

  pipe_at-queued : pipe_at queued e.state ≡ pushed (pipe_at c e.state) (peer e.side) m
  unfolding queued sent
  pipe_at-queued =
      ap (λ l. get_or l e.state new_pipe) (pipes-free_handle sent h)
      ∙ get_or-set_self c.pipes e.state (pushed (pipe_at c e.state) (peer e.side) m) new_pipe
          v.in_store

  lookup-queued : (j : ℕ) → lookup queued j ≡ (if j == h then free else lookup c j)
  unfolding queued sent
  lookup-queued j =
      lookup-free_handle sent h (message m) (lookup-Live sent h (message m) sent-slot refl) j
      ∙ ap (λ s. if j == h then free else s) (lookup-slots c sent j refl)

  collected : Collected queued (collect_trap_events queued)
  collected = collect_trap_events-Collected queued queued-IsSound.table queued-IsSound.listed

  -- What an accepted send leaves: the message, as it was, behind those that wait at the other end,
  -- its handle free, and every other handle but a trap's naming what it named.
  sent-Queue :
      at_end (pipe_at (collect_trap_events queued) e.state).queues (peer e.side)
      ≡ at_end (pipe_at c e.state).queues (peer e.side) ++ m ∷ []
  sent-Queue =
      ap (λ l. at_end (get_or l e.state new_pipe).queues (peer e.side)) collected.store.pipes
      ∙ ap (λ st. at_end st.queues (peer e.side)) pipe_at-queued
      ∙ at_end-set_end (pipe_at c e.state).queues (peer e.side) _
      ∙ ap (λ b. at_end (pipe_at c e.state).queues (peer e.side) ++ record m { committed = b } ∷ [])
          (sym v.ready.0)

  kept :
      (j : ℕ) → Kept (if j == h then free else lookup c j) (lookup (collect_trap_events queued) j)
  kept j =
      subst (λ s. Kept s (lookup (collect_trap_events queued) j)) (lookup-queued j)
        (collected.slots j)

  -- WhpWriteMessage of a message that can be sent, in a sound core: over quota it changes nothing and
  -- says so; otherwise it succeeds, the message stands, as it was, behind those that wait at the
  -- other end, its handle names nothing, and every other handle that is not a trap names what it
  -- did.
  pub write_message_lem :
      let (result, d) = write_message cb pipe h c in
      (over_quota (pipe_at c e.state) (peer e.side) m ≡ true
        → (result ≡ resource_exhausted) × (d ≡ c))
      × (over_quota (pipe_at c e.state) (peer e.side) m ≡ false
          → (result ≡ ok)
            × (at_end (pipe_at d e.state).queues (peer e.side)
                ≡ at_end (pipe_at c e.state).queues (peer e.side) ++ m ∷ [])
            × (lookup d h ≡ free)
            × ((j : ℕ) → j ≢ h → is_trap (lookup c j) ≡ false → lookup d j ≡ lookup c j))
  write_message_lem = (
    λ q. (ap (λ r. r.0) (full q), ap (λ r. r.1) (full q)),
    λ q. subst Sent (sym (write-send ∙ send-ok q)) (
      refl,
      sent-Queue,
      Kept-other
          (subst (λ s. Kept s (lookup (collect_trap_events queued) h)) (if-true _ _ (==_refl h))
            (kept h))
          refl,
      λ j n t.
          Kept-other
            (subst (λ s. Kept s (lookup (collect_trap_events queued) j))
              (if-false _ _ (==_ne j h n)) (kept j))
            t,
    ),
  )
    where
      full :
          over_quota (pipe_at c e.state) (peer e.side) m ≡ true
          → write_message cb pipe h c ≡ (resource_exhausted, c)
      full q = write-send ∙ send-exhausted q

      Sent : WhpResult × Core → Type 0
      Sent r =
          (r.0 ≡ ok)
          × (at_end (pipe_at r.1 e.state).queues (peer e.side)
              ≡ at_end (pipe_at c e.state).queues (peer e.side) ++ m ∷ [])
          × (lookup r.1 h ≡ free)
          × ((j : ℕ) → j ≢ h → is_trap (lookup c j) ≡ false → lookup r.1 j ≡ lookup c j)

  -- The state it leaves is sound, and has as many pipes.
  pub write_message-IsSound_ok :
      over_quota (pipe_at c e.state) (peer e.side) m ≡ false
      → let d = (write_message cb pipe h c).1 in IsSound d × (length d.pipes ≡ length c.pipes)
  write_message-IsSound_ok q =
      subst (λ (r : WhpResult × Core). IsSound r.1 × (length r.1.pipes ≡ length c.pipes))
        (sym (write-send ∙ send-ok q))
        (record { table = collected.table; listed = collected.listed }, pipes-length)
    where
      pipes-length : length (collect_trap_events queued).pipes ≡ length c.pipes
      pipes-length =
          ap length collected.store.pipes
          ∙ unfold queued in ap length (pipes-free_handle _ h) ∙ length-set c.pipes e.state _
