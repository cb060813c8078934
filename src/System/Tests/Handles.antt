-- ===== src/System/Tests/Handles.antt =====
-- The theorems on handles, traps and buffers.
use voodoo.Prelude.{
  ◌<◌, ◌≤◌, ◌+◌, ◌&&◌, ℕ, suc, false, not, none, exists, count_if, is_some, ◌-◌, ◌^◌, ◌≡◌, ◌≢◌,
  refl, [], ◌∷◌, arith, some, true, length, replicate, ◌==◌, if◌then◌else◌,
}
use voodoo.System.Types.{
  Core, free, initial_core, message, empty_message, SharedBufferObj, PendingEvent, ok,
  invalid_argument, no_signals,
}
use voodoo.System.Table.{lookup, alloc, free_handle}
use voodoo.System.Pipes.{create_message_pipe}
use voodoo.System.Table.Sound.{IsSound}
use voodoo.System.Traps.{create_trap, collect_trap_events, close_trap}
use voodoo.System.Traps.Collect.{collect_trap_events-armed, collect_trap_events-idempotent}
use voodoo.System.Traps.{arm_trap, fires}
use voodoo.System.Traps.Arm.{arm_trap_lem}
use voodoo.System.Types.{trap, shared_buffer, Address, failed_precondition, out_of_range}
use voodoo.System.Traps.Purge.{events_of, close_trap_purges}
use voodoo.System.Messages.{create_message}
use voodoo.System.Platform.{posix}
use voodoo.System.Buffers.{no_buffer, buffer_at, ensure_mapped, map_found, map_buffer}
use voodoo.System.Buffers.Mapping.{refs_of, can_map, map_buffer_lem, map_found_wraps}
use voodoo.System.Close.{close}
use voodoo.System.Close.Laws.{Closed, close-Closed, close-close}
use voodoo.System.Machine.{
  step, create_message_pipe_call, create_message_call, close_call, create_trap_call,
}
use voodoo.System.Machine.Reach.{Reachable, start, next, Reachable-IsSound, create_message-fresh}
use voodoo.System.Tests.Samples.{
  host_os, callbacks, callbacks-KeepSound, watcher, office, busy_office, busy_office-IsSound,
}

-- Four calls from the start.
abbrev one : Core
one = step host_os callbacks initial_core create_message_pipe_call

abbrev two : Core
two = step host_os callbacks one create_message_call

abbrev three : Core
three = step host_os callbacks two (close_call 3)

abbrev four : Core
four = step host_os callbacks three (create_trap_call (some 7))

sizes :
    (length one.slots ≡ 3)
    × (length two.slots ≡ 4)
    × (length three.slots ≡ 4)
    × (length four.slots ≡ 4)
unfolding step create_message_pipe alloc create_message close lookup collect_trap_events free_handle
    create_trap
sizes = (refl, refl, refl, refl)

Reachable-four : Reachable host_os callbacks four
Reachable-four =
    next
      (next
        (next (next start (omega arith) create_message_pipe_call) (omega (arith, sizes.0))
          create_message_call)
        (omega (arith, sizes.1)) (close_call 3))
      (omega (arith, sizes.2)) (create_trap_call (some 7))

Reachable-IsSound_example : IsSound four
Reachable-IsSound_example = Reachable-IsSound host_os callbacks callbacks-KeepSound Reachable-four

create_message-fresh_example :
    (h : ℕ) × ((create_message true four).0 ≡ ok)
    × ((create_message true four).1 ≡ some h)
    × (h ≢ 0)
    × (lookup four h ≡ free)
    × ((j : ℕ)
        → lookup (create_message true four).2 j
          ≡ (if j == h then message empty_message else lookup four j))
create_message-fresh_example =
    create_message-fresh host_os callbacks callbacks-KeepSound Reachable-four
      (omega (arith, sizes.3))

watcher_slot : lookup busy_office 4 ≡ trap watcher
unfolding lookup
watcher_slot = refl

collect_trap_events-armed_example :
    lookup (collect_trap_events busy_office) 4
    ≡ trap (record watcher {
      armed =
          watcher.armed
          && not (is_some watcher.handler && exists (fires busy_office) watcher.triggers);
    })
collect_trap_events-armed_example =
    collect_trap_events-armed busy_office 4 watcher busy_office-IsSound.table
      busy_office-IsSound.listed watcher_slot

collect_trap_events-idempotent_example :
    collect_trap_events (collect_trap_events busy_office) ≡ collect_trap_events busy_office
collect_trap_events-idempotent_example =
    collect_trap_events-idempotent busy_office busy_office-IsSound.table busy_office-IsSound.listed

arm_trap_lem_example :
    let (result, blocking, d) = arm_trap 4 true busy_office in
    (0 < count_if (fires busy_office) watcher.triggers
      → (result ≡ failed_precondition)
        × (blocking ≡ some (count_if (fires busy_office) watcher.triggers))
        × (d ≡ busy_office))
    × (count_if (fires busy_office) watcher.triggers ≡ 0
        → (result ≡ ok)
          × (blocking ≡ none)
          × ((j : ℕ)
              → lookup d j
                ≡ (if j == 4 then trap (record watcher { armed = true }) else lookup busy_office j))
          × (lookup (collect_trap_events d) 4 ≡ trap (record watcher { armed = true })))
arm_trap_lem_example =
    arm_trap_lem busy_office 4 watcher busy_office-IsSound.table busy_office-IsSound.listed
      watcher_slot (omega arith)

close-Closed_example : Closed 1 busy_office (close posix callbacks 1 busy_office)
unfolding lookup
close-Closed_example = close-Closed posix callbacks 1 busy_office busy_office-IsSound refl refl

close-close_example :
    close posix callbacks 4 (close posix callbacks 4 busy_office).1
    ≡ (invalid_argument, (close posix callbacks 4 busy_office).1)
unfolding lookup
close-close_example = close-close posix callbacks 4 busy_office busy_office-IsSound refl refl

-- Two events that wait, one of the trap's context.
abbrev event_with : ℕ → PendingEvent
event_with context = record {
  handler = 7;
  event = record { flags = 0; trigger_context = context; result = ok; signals_state = no_signals };
}

abbrev waiting_office : Core
waiting_office = record office { pending_events = event_with 9 ∷ event_with 5 ∷ [] }

close_trap_purges_example : events_of 9 (close_trap waiting_office 4 watcher).pending_events ≡ []
close_trap_purges_example = close_trap_purges waiting_office 4 watcher 9

-- A buffer of sixteen bytes.
abbrev sixteen : SharedBufferObj
sixteen = record no_buffer { bytes = replicate 16 0; size = 16 }

abbrev buffered : Core
buffered = record initial_core { buffers = sixteen ∷ [] }

mapped : ensure_mapped host_os sixteen ≡ some sixteen
unfolding ensure_mapped
mapped = refl

-- The same with a handle.
abbrev held : Core
held = record buffered { slots = free ∷ shared_buffer 0 ∷ [] }

held_slot : lookup held 1 ≡ shared_buffer 0
unfolding lookup
held_slot = refl

map_buffer_lem_example :
    let (result, address, d) = map_buffer host_os 1 8 8 true held in
    let p : Address = record { buffer = 0; offset = 8 } in
    (can_map host_os (buffer_at held 0) ≡ false
      → (result ≡ failed_precondition) × (address ≡ none) × (d ≡ held))
    × (can_map host_os (buffer_at held 0) ≡ true
        → (buffer_at held 0).size < 8 + 8
        → (result ≡ out_of_range) × (address ≡ none) × (d.maps ≡ held.maps))
    × (can_map host_os (buffer_at held 0) ≡ true
        → 8 + 8 ≤ (buffer_at held 0).size
        → (result ≡ ok) × (address ≡ some p) × (refs_of p d.maps ≡ suc (refs_of p held.maps)))
map_buffer_lem_example = map_buffer_lem host_os 1 0 8 8 held held_slot refl (omega arith)

map_found_wraps_example : (map_found host_os 0 (2 ^ 64 - 1) 1 buffered).0 ≡ ok
map_found_wraps_example =
    map_found_wraps host_os 0 1 buffered sixteen mapped (omega arith) (omega arith)
