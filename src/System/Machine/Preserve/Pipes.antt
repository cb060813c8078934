-- ===== src/System/Machine/Preserve/Pipes.antt =====
-- The calls on message pipes keep the handle table sound.
use voodoo.Prelude.{
  ℕ, ◌≡◌, refl, ◌∙◌, List, [], ◌∷◌, true, Option, none, some, arith, Option-cases, inl, inr,
}
use voodoo.System.Types.{Core, message, MessageObj, PipeEnd, PipeState, WhpResult, ok}
use voodoo.System.Table.{lookup, free_handle}
use voodoo.System.Table.Sound.{IsSound, same_table-IsSound, free_handle-IsSound, alloc-IsSound}
use voodoo.System.Machine.Preserve.Blocks.{collect-IsSound, message_of-eq}
use voodoo.System.Messages.{Callbacks, message_of, serialize_message}
use voodoo.System.Machine.Preserve.Messages.{KeepSound, serialize_message-IsSound}
use voodoo.System.Signals.{pipe_at}
use voodoo.System.Types.{peer, set_end}
use voodoo.System.Table.Free.{lookup-slots}
use voodoo.System.Traps.{collect_trap_events}
use voodoo.System.Pipes.{
  pipe_of, create_message_pipe, send, send_to, pushed, put_pipe, write_serialized, write_message,
  receive, read_message, set_quota,
}

pub create_message_pipe-IsSound : (c : Core) → IsSound c → IsSound (create_message_pipe true c).2
unfolding create_message_pipe
create_message_pipe-IsSound c v =
    alloc-IsSound _ _ (alloc-IsSound _ _ (same_table-IsSound v refl refl refl) refl refl) refl refl

-- The message of a handle is freed, whatever has become of the pipes meanwhile.
free_message-IsSound :
    (c d : Core) (h : ℕ) (m : MessageObj)
    → IsSound c
    → message_of (lookup c h) ≡ some m
    → d.slots ≡ c.slots
    → d.free_list ≡ c.free_list
    → d.traps ≡ c.traps
    → IsSound (collect_trap_events (free_handle d h))
free_message-IsSound c d h m v e s f t = collect-IsSound _ (
    free_handle-IsSound d h (message m) (same_table-IsSound v s f t)
      (lookup-slots c d h s ∙ message_of-eq (lookup c h) m e) refl refl)

send-IsSound :
    (e : PipeEnd) (h : ℕ) (m : MessageObj) (c : Core)
    → IsSound c
    → message_of (lookup c h) ≡ some m
    → IsSound (send e h m c).1
unfolding send
send-IsSound e h m c v q = ground (
  arith,
  v,
  free_message-IsSound c c h m v q refl refl refl,
  free_message-IsSound c (put_pipe c e.state (pushed (pipe_at c e.state) (peer e.side) m)) h m v q
      refl refl refl,
)

send_to-IsSound :
    (o : Option PipeEnd) (n : Option MessageObj) (h : ℕ) (c : Core)
    → IsSound c
    → message_of (lookup c h) ≡ n
    → IsSound (send_to o n h c).1
unfolding send_to
send_to-IsSound none n h c v q = v
send_to-IsSound (some e) none h c v q = v
send_to-IsSound (some e) (some m) h c v q = send-IsSound e h m c v q

write_serialized-IsSound :
    (pipe h : ℕ) (r : WhpResult) (c : Core) → IsSound c → IsSound (write_serialized pipe h (r, c)).1
unfolding write_serialized
write_serialized-IsSound pipe h ok c v = send_to-IsSound _ _ h c v refl
write_serialized-IsSound pipe h _ c v = v

pub write_message-IsSound :
    (cb : Callbacks)
    → KeepSound cb
    → (pipe h : ℕ) (c : Core) → IsSound c
    → IsSound (write_message cb pipe h c).1
unfolding write_message
write_message-IsSound cb keeps pipe h c v =
    write_serialized-IsSound pipe h (serialize_message cb h c).0 (serialize_message cb h c).1
      (serialize_message-IsSound cb keeps h c v)

receive-IsSound :
    (e : PipeEnd) (q : List MessageObj) (c : Core) → IsSound c → IsSound (receive e q c).2
unfolding receive
receive-IsSound e [] c v = v
receive-IsSound e (m ∷ q) c v = alloc-IsSound _ _ (same_table-IsSound v refl refl refl) refl refl

pub read_message-IsSound : (pipe : ℕ) (c : Core) → IsSound c → IsSound (read_message pipe true c).2
read_message-IsSound pipe c v = elim (Option-cases (pipe_of (lookup c pipe))) [
  | inl e ↦ unfold read_message in rw (e, read_message) v
  | inr (p, e) ↦ unfold read_message in rw (e, read_message) (receive-IsSound p _ c v)
]

put_pipe-IsSound : (c : Core) (i : ℕ) (st : PipeState) → IsSound c → IsSound (put_pipe c i st)
put_pipe-IsSound c i st v = same_table-IsSound v refl refl refl

pub set_quota-IsSound :
    (h type limit : ℕ) (c : Core) → IsSound c → IsSound (set_quota h type limit c).1
unfolding set_quota
set_quota-IsSound h type limit c v = elim (Option-cases (pipe_of (lookup c h))) [
  | inl e ↦ rw (e, set_quota) v
  | inr (p, e) ↦
      let st : PipeState = pipe_at c p.state in
      rw (e, set_quota)
        (ground (
          arith,
          v,
          put_pipe-IsSound c p.state
              (record st { quota_count = set_end st.quota_count p.side limit }) v,
          put_pipe-IsSound c p.state
              (record st { quota_bytes = set_end st.quota_bytes p.side limit }) v,
        ))
]
