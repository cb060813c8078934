-- ===== src/System/Pipes/Receive.antt =====
-- WhpReadMessage: what each branch does, and the round trip with WhpWriteMessage.
use voodoo.Prelude.{
  ℕ, ◌<◌, ◌≡◌, ◌≢◌, refl, sym, ap, ◌∙◌, List, [], ◌∷◌, ◌++◌, true, false, none, some, arith, ◌==◌,
  if◌then◌else◌, length, get_or, get_or-set_self, if-true, if-false, ==_refl, ==_ne,
}
use voodoo.System.Types.{
  Core, free, message, message_pipe, MessageObj, PipeEnd, peer, at_end, set_end, new_pipe, ok,
  failed_precondition, should_wait,
}
use voodoo.System.Table.{lookup, alloc}
use voodoo.System.Table.Validity.{is_trap}
use voodoo.System.Table.Alloc.{HasRoom, Allocated, alloc-Allocated}
use voodoo.System.Table.Free.{lookup-get_or, lookup-slots, pipes-alloc}
use voodoo.System.Table.Sound.{IsSound, same_table-IsSound, alloc-IsSound}
use voodoo.System.Signals.{pipe_at}
use voodoo.System.Messages.{Callbacks}
use voodoo.System.Pipes.{pipe_of, put_pipe, receive, read_message, write_message, over_quota}
use voodoo.System.Pipes.Quota.{at_end-set_end}
use voodoo.System.Pipes.Fifo.{CanSend, write_message_lem, write_message-IsSound_ok}

module _ (c : Core) (pipe : ℕ) (e : PipeEnd) (m : MessageObj) (q : List MessageObj) (v : IsSound c)
    (room : HasRoom c) (found : lookup c pipe ≡ message_pipe e)
    (in_store : e.state < length c.pipes)
    (waiting : at_end (pipe_at c e.state).queues e.side ≡ m ∷ q) where
  taken : Core
  taken =
      put_pipe c e.state
        (record (pipe_at c e.state) { queues = set_end (pipe_at c e.state).queues e.side q })

  read-taken :
      read_message pipe true c ≡ (ok, some (alloc taken (message m)).0, (alloc taken (message m)).1)
  unfolding read_message receive taken
  read-taken = rw (ap pipe_of found, read_message) (ap (λ l. receive e l c) waiting)

  taken-IsSound : IsSound taken
  unfolding taken
  taken-IsSound = same_table-IsSound v refl refl refl

  taken-Allocated : Allocated taken (message m) (alloc taken (message m))
  taken-Allocated = alloc-Allocated taken (message m) taken-IsSound.table (unfold taken in room)

  after-IsSound : IsSound (alloc taken (message m)).1
  after-IsSound = alloc-IsSound taken (message m) taken-IsSound refl refl

  lookup-taken : (j : ℕ) → lookup taken j ≡ lookup c j
  unfolding taken
  lookup-taken j = lookup-slots c taken j refl

  -- In a sound core with a handle to spare, WhpReadMessage at an end where a message waits takes
  -- the first, under a handle that named nothing, leaves the rest of the queue, and no other handle
  -- changes.
  pub read_message_lem :
      (h : ℕ) × (d : Core) × (read_message pipe true c ≡ (ok, some h, d))
      × (lookup c h ≡ free)
      × (lookup d h ≡ message m)
      × (at_end (pipe_at d e.state).queues e.side ≡ q)
      × ((j : ℕ) → j ≢ h → lookup d j ≡ lookup c j)
  read_message_lem = (
    (alloc taken (message m)).0,
    (alloc taken (message m)).1,
    read-taken,
    sym (lookup-taken _)
        ∙ lookup-get_or taken _ taken-IsSound.table.unused
        ∙ taken-Allocated.was_free,
    at (alloc taken (message m)).0
        ∙ if-true _ (get_or taken.slots (alloc taken (message m)).0 free)
            (==_refl (alloc taken (message m)).0),
    queue,
    λ j n.
        at j
        ∙ if-false _ _ (==_ne j _ n)
        ∙ sym (lookup-get_or taken j taken-IsSound.table.unused)
        ∙ lookup-taken j,
  )
    where
      at :
          (j : ℕ)
          → lookup (alloc taken (message m)).1 j
            ≡ (if j == (alloc taken (message m)).0 then message m else get_or taken.slots j free)
      at j =
          lookup-get_or (alloc taken (message m)).1 j after-IsSound.table.unused
          ∙ taken-Allocated.slot j

      queue : at_end (pipe_at (alloc taken (message m)).1 e.state).queues e.side ≡ q
      queue =
          ap (λ l. at_end (get_or l e.state new_pipe).queues e.side) (pipes-alloc taken (message m))
          ∙ unfold taken in
            (ap (λ st. at_end st.queues e.side)
                (get_or-set_self c.pipes e.state _ new_pipe in_store)
              ∙ at_end-set_end (pipe_at c e.state).queues e.side q)

-- WhpReadMessage at an end where no message waits fails with failed_precondition if the other end
-- is closed and with should_wait if not, and changes nothing.
pub read_message-empty :
    (c : Core) (pipe : ℕ) (e : PipeEnd)
    → lookup c pipe ≡ message_pipe e
    → at_end (pipe_at c e.state).queues e.side ≡ []
    → read_message pipe true c ≡ (
      if at_end (pipe_at c e.state).closed (peer e.side) then failed_precondition else should_wait,
      none,
      c,
    )
unfolding read_message receive
read_message-empty c pipe e found empty =
    rw (ap pipe_of found, read_message) (ap (λ l. receive e l c) empty)

-- A message that can be sent, written to one end of a pipe with nothing waiting at the other end,
-- room in its quota and a handle to spare, is what the other end then reads, under a handle that the
-- read gives out, and nothing waits there any more.
pub read_message-write_message :
    (cb : Callbacks) (c : Core) (pipe h reader : ℕ) (e : PipeEnd) (m : MessageObj)
    → CanSend c pipe h e m
    → lookup c reader ≡ message_pipe (record { state = e.state; side = peer e.side })
    → reader ≢ h
    → over_quota (pipe_at c e.state) (peer e.side) m ≡ false
    → at_end (pipe_at c e.state).queues (peer e.side) ≡ []
    → HasRoom (write_message cb pipe h c).1
    → (h' : ℕ) × (d : Core) × ((write_message cb pipe h c).0 ≡ ok)
      × (read_message reader true (write_message cb pipe h c).1 ≡ (ok, some h', d))
      × (lookup d h' ≡ message m)
      × (at_end (pipe_at d e.state).queues (peer e.side) ≡ [])
read_message-write_message cb c pipe h reader e m v at_reader ne q empty room =
    (got.0, got.1, wrote.0, got.2, got.4, got.5)
  where
    d : Core
    d = (write_message cb pipe h c).1

    wrote :
        ((write_message cb pipe h c).0 ≡ ok)
        × (at_end (pipe_at d e.state).queues (peer e.side)
            ≡ at_end (pipe_at c e.state).queues (peer e.side) ++ m ∷ [])
        × (lookup d h ≡ free)
        × ((j : ℕ) → j ≢ h → is_trap (lookup c j) ≡ false → lookup d j ≡ lookup c j)
    wrote = (write_message_lem cb c pipe h e m v).1 q

    sound : IsSound d × (length d.pipes ≡ length c.pipes)
    sound = write_message-IsSound_ok cb c pipe h e m v q

    got :
        (h' : ℕ) × (d' : Core) × (read_message reader true d ≡ (ok, some h', d'))
        × (lookup d h' ≡ free)
        × (lookup d' h' ≡ message m)
        × (at_end (pipe_at d' e.state).queues (peer e.side) ≡ [])
        × ((j : ℕ) → j ≢ h' → lookup d' j ≡ lookup d j)
    got =
        read_message_lem d reader (record { state = e.state; side = peer e.side }) m [] sound.0 room
          (wrote.3 reader ne (ap is_trap at_reader) ∙ at_reader)
          (omega (arith, sound.1, v.in_store)) (wrote.1 ∙ ap (λ l. l ++ m ∷ []) empty)
