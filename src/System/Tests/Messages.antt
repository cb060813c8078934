-- ===== src/System/Tests/Messages.antt =====
-- The theorems on message pipes at one pipe with its two ends.
use voodoo.Prelude.{ℕ, ◌≤◌, ◌≡◌, ◌≢◌, refl, [], ◌∷◌, ◌++◌, length, arith, some, true, false}
use voodoo.System.Types.{
  Core, free, message, message_pipe, ok, resource_exhausted, end1, at_end, new_pipe,
  signal_readable, signal_writable, signal_peer_closed, condition_satisfied,
  condition_unsatisfiable,
}
use voodoo.System.Table.{lookup, free_handle, put_slot}
use voodoo.System.Traps.{collect_trap_events, first_firing, fires}
use voodoo.System.Messages.{serialize_message}
use voodoo.System.Table.Validity.{is_trap}
use voodoo.System.Table.Alloc.{HasRoom}
use voodoo.System.Signals.{pipe_at, pipe_signals, signals_match, query_locked}
use voodoo.System.Signals.Laws.{IsCoherent, query_locked-IsCoherent, pipe_signals-match}
use voodoo.System.Pipes.{write_message, read_message, over_quota, queue_bytes, pushed}
use voodoo.System.Pipes.Quota.{over_quota_lem}
use voodoo.System.Pipes.Fifo.{CanSend, write_message_lem}
use voodoo.System.Pipes.Receive.{read_message_lem, read_message-write_message}
use voodoo.System.Tests.Samples.{
  callbacks, hello, left, right, office, office-IsSound, busy_pipe, busy_office,
  busy_office-IsSound,
}

can_send : CanSend office 1 3 left hello
unfolding lookup
can_send = record {
  sound = office-IsSound;
  pipe_slot = refl;
  message_slot = refl;
  ready = (refl, refl);
  in_store = omega arith;
  peer_open = refl;
  self_open = refl;
}

write_message_lem_example :
    let (result, d) = write_message callbacks 1 3 office in
    (over_quota new_pipe end1 hello ≡ true → (result ≡ resource_exhausted) × (d ≡ office))
    × (over_quota new_pipe end1 hello ≡ false
        → (result ≡ ok)
          × (at_end (pipe_at d 0).queues end1 ≡ [] ++ hello ∷ [])
          × (lookup d 3 ≡ free)
          × ((j : ℕ) → j ≢ 3 → is_trap (lookup office j) ≡ false → lookup d j ≡ lookup office j))
write_message_lem_example = write_message_lem callbacks office 1 3 left hello can_send

in_quota : over_quota new_pipe end1 hello ≡ false
unfolding over_quota queue_bytes
in_quota = refl

right_slot : lookup office 2 ≡ message_pipe right
unfolding lookup
right_slot = refl

busy_slot : lookup busy_office 2 ≡ message_pipe right
unfolding lookup
busy_slot = refl

write_slots : length (write_message callbacks 1 3 office).1.slots ≡ 5
unfolding write_message serialize_message lookup collect_trap_events free_handle first_firing fires
    signals_match query_locked pipe_signals put_slot
write_slots = refl

room : HasRoom (write_message callbacks 1 3 office).1
room = omega (arith, write_slots)

read_message-write_message_example :
    (h' : ℕ) × (d : Core) × ((write_message callbacks 1 3 office).0 ≡ ok)
    × (read_message 2 true (write_message callbacks 1 3 office).1 ≡ (ok, some h', d))
    × (lookup d h' ≡ message hello)
    × (at_end (pipe_at d 0).queues end1 ≡ [])
read_message-write_message_example =
    read_message-write_message callbacks office 1 3 2 left hello can_send right_slot
      (λ e. omega (arith, e)) in_quota refl room

read_message_lem_example :
    (h : ℕ) × (d : Core) × (read_message 2 true busy_office ≡ (ok, some h, d))
    × (lookup busy_office h ≡ free)
    × (lookup d h ≡ message hello)
    × (at_end (pipe_at d 0).queues end1 ≡ [])
    × ((j : ℕ) → j ≢ h → lookup d j ≡ lookup busy_office j)
read_message_lem_example =
    read_message_lem busy_office 2 right hello [] busy_office-IsSound (omega arith) busy_slot
      (omega arith) refl

busy_quota : over_quota busy_pipe end1 hello ≡ false
unfolding over_quota queue_bytes
busy_quota = refl

over_quota_lem_example :
    (length (at_end (pushed busy_pipe end1 hello).queues end1) ≤ at_end busy_pipe.quota_count end1)
    × (queue_bytes (at_end (pushed busy_pipe end1 hello).queues end1)
        ≤ at_end busy_pipe.quota_bytes end1)
over_quota_lem_example = over_quota_lem busy_pipe end1 hello busy_quota

query_locked-IsCoherent_example : IsCoherent (query_locked busy_office 2)
query_locked-IsCoherent_example = query_locked-IsCoherent busy_office 2

pipe_signals-match_example :
    (signals_match (pipe_signals busy_pipe end1) signal_readable condition_satisfied ≡ true)
    × (signals_match (pipe_signals busy_pipe end1) signal_writable condition_satisfied ≡ true)
    × (signals_match (pipe_signals busy_pipe end1) signal_peer_closed condition_satisfied ≡ false)
    × (signals_match (pipe_signals busy_pipe end1) signal_readable condition_unsatisfiable ≡ false)
pipe_signals-match_example = pipe_signals-match busy_pipe end1
