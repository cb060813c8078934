-- ===== src/System/Traps.antt =====
-- Traps and their events: CollectTrapEvents, WhpPumpEvents, WhpCreateTrap, WhpAddTrigger,
-- WhpRemoveTrigger, WhpArmTrap, and the part of WhpClose that closes a trap.
pub mod Frame
pub mod Collect
pub mod Purge
pub mod Arm
use Prim.Native.Nat.{bit_and}
use voodoo.Prelude.{
  ℕ, suc, ◌+◌, ◌%◌, ◌^◌, List, [], ◌∷◌, ◌++◌, map, Bool, true, false, ◌&&◌, ◌||◌, Option, none,
  some, ltb, ◌==◌, if◌then◌else◌, remove_if, exists, length, get_or, set,
}
use voodoo.System.Types.{
  Core, Slot, free, message_pipe, message, trap, data_pipe_producer, data_pipe_consumer,
  shared_buffer, platform, TrapObj, TrapTrigger, PendingEvent, WhpTrapEvent, WhpHandleSignalsState,
  no_signals, WhpResult, ok, cancelled, invalid_argument, not_found, failed_precondition,
  condition_unsatisfiable,
}
use voodoo.System.Table.{lookup, alloc, put_slot}
use voodoo.System.Signals.{query_locked, signals_match}

-- `static_cast<TrapObj*>(slot->obj.get())` where the slot is a trap.
abbrev pub trap_of : Slot → Option TrapObj
trap_of (trap t) = some t
trap_of _ = none

-- Whether a trigger's condition holds now.
unfoldable pub fires : Core → TrapTrigger → Bool
fires c trig = signals_match (query_locked c trig.watched) trig.signals trig.condition

-- The event of a trigger that fires.
unfoldable pub event_of : Core → TrapTrigger → WhpTrapEvent
event_of c trig =
    let st = query_locked c trig.watched in
    record {
      flags = 0;
      trigger_context = trig.context;
      result =
          if trig.condition == condition_unsatisfiable
            || bit_and st.satisfiable_signals trig.signals == 0
          then failed_precondition
          else ok;
      signals_state = st;
    }

-- The first trigger that fires; the loop over them stops there.
unfoldable pub first_firing : Core → List TrapTrigger → Option TrapTrigger
first_firing c [] = none
first_firing c (trig ∷ ts) = if fires c trig then some trig else first_firing c ts

-- A trap that is armed and has a handler queues the event of its first firing trigger, and is
-- disarmed.
collect_armed : Core → ℕ → TrapObj → ℕ → Core
collect_armed c th t handler = elim (first_firing c t.triggers) [
  | none ↦ c
  | some trig ↦ record (put_slot c th (trap (record t { armed = false }))) {
    pending_events = c.pending_events ++ record { handler = handler; event = event_of c trig } ∷ [];
  }
]

unfoldable pub collect_trap : Core → ℕ → Option TrapObj → Core
unfolding collect_armed
collect_trap c th none = c
collect_trap c th (some t) =
    if t.armed then elim t.handler [ none ↦ c | some handler ↦ collect_armed c th t handler ] else c

unfoldable pub collect_traps : Core → List ℕ → Core
unfolding collect_trap
collect_traps c [] = c
collect_traps c (th ∷ ths) = collect_traps (collect_trap c th (trap_of (lookup c th))) ths

unfoldable pub collect_trap_events : Core → Core
unfolding collect_traps
collect_trap_events c = collect_traps c c.traps

-- WhpCreateTrap. A null `trap` is `present = false`.
unfoldable pub create_trap : Option ℕ → Bool → Core → WhpResult × Option ℕ × Core
create_trap none present c = (invalid_argument, none, c)
create_trap (some handler) present c =
    let (h, c') =
      alloc c (trap (record { handler = some handler; triggers = []; armed = false })) in
    if present
    then (ok, some h, record c' { traps = c'.traps ++ h ∷ [] })
    else (invalid_argument, none, c)

-- WhpAddTrigger.
unfoldable pub add_trigger : ℕ → ℕ → ℕ → ℕ → ℕ → Core → WhpResult × Core
add_trigger h handle signals condition context c = elim (trap_of (lookup c h)) [
  | none ↦ (invalid_argument, c)
  | some t ↦ elim (lookup c handle) [
    | free ↦ (invalid_argument, c)
    | _ ↦ (
      ok,
      put_slot c h (
          trap (record t {
            triggers =
                t.triggers
                ++ record {
                  watched = handle;
                  signals = signals;
                  condition = condition;
                  context = context;
                }
                  ∷ [];
          })),
    )
  ]
]

-- The event that tells a handler that its trigger is gone.
abbrev pub cancelled_event : ℕ → WhpTrapEvent
cancelled_event context = record {
  flags = 0;
  trigger_context = context;
  result = cancelled;
  signals_state = no_signals;
}

unfoldable pub queue_cancelled : Core → Option ℕ → ℕ → Core
queue_cancelled c none context = c
queue_cancelled c (some handler) context = record c {
  pending_events =
      c.pending_events ++ record { handler = handler; event = cancelled_event context } ∷ [];
}

-- WhpRemoveTrigger: every trigger of the context goes, with one event.
unfoldable pub remove_trigger : ℕ → ℕ → Core → WhpResult × Core
unfolding queue_cancelled
remove_trigger h context c = elim (trap_of (lookup c h)) [
  | none ↦ (invalid_argument, c)
  | some t ↦
      let kept = remove_if (λ (x : TrapTrigger). x.context == context) t.triggers in
      if exists (λ (x : TrapTrigger). x.context == context) t.triggers
      then (
        ok,
        queue_cancelled (put_slot c h (trap (record t { triggers = kept }))) t.handler context,
      )
      else (not_found, c)
]

-- The events that WhpArmTrap finds blocking, in order.
unfoldable pub blocking_of : Core → List TrapTrigger → List WhpTrapEvent
blocking_of c [] = []
blocking_of c (trig ∷ ts) =
    let rest = blocking_of c ts in
    if fires c trig
    then record {
      flags = 0;
      trigger_context = trig.context;
      result = ok;
      signals_state = query_locked c trig.watched;
    }
      ∷ rest
    else rest

-- WhpArmTrap, which counts in a uint32_t. The second part is what `*num_blocking_events` becomes (`none`: untouched); the
-- events stored are the first of `blocking_of` that the caller's array has room for.
unfoldable pub arm_trap : ℕ → Bool → Core → WhpResult × Option ℕ × Core
arm_trap h present c = elim (trap_of (lookup c h)) [
  | none ↦ (invalid_argument, none, c)
  | some t ↦
      let blocking : ℕ = length (blocking_of c t.triggers) % 2 ^ 32 in
      if ltb 0 blocking
      then (failed_precondition, if present then some blocking else none, c)
      else (ok, none, put_slot c h (trap (record t { armed = true })))
]

-- What WhpClose does for a trap: the events of its contexts are dropped, and the trap is no longer
-- listed.
unfoldable pub close_trap : Core → ℕ → TrapObj → Core
close_trap c h t = record c {
  pending_events =
      remove_if
        (λ (e : PendingEvent).
          exists (λ (x : TrapTrigger). x.context == e.event.trigger_context) t.triggers)
        c.pending_events;
  traps = remove_if (λ (x : ℕ). x == h) c.traps;
}

-- WhpPumpEvents. What a handler does to the core is a parameter; it runs when the queue has been
-- emptied, so the events that it causes wait for the next pump.
unfoldable pub deliver : (ℕ → WhpTrapEvent → Core → Core) → List PendingEvent → Core → Core
deliver run [] c = c
deliver run (e ∷ es) c = deliver run es (run e.handler e.event c)

unfoldable pub pump_events : (ℕ → WhpTrapEvent → Core → Core) → Core → Core
unfolding deliver
pump_events run c = deliver run c.pending_events (record c { pending_events = [] })
