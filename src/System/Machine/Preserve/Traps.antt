-- ===== src/System/Machine/Preserve/Traps.antt =====
-- The calls on traps keep the handle table sound.
use voodoo.Prelude.{
  ℕ, ◌%◌, ◌^◌, ◌≡◌, refl, List, [], ◌∷◌, ◌++◌, true, false, Option, none, some, arith, ltb, ◌==◌,
  exists, length, Option-cases, Bool-cases, inl, inr,
}
use voodoo.System.Types.{Core, trap, TrapObj, TrapTrigger, PendingEvent, WhpTrapEvent}
use voodoo.System.Table.{lookup, put_slot}
use voodoo.System.Table.Alloc.{HasRoom}
use voodoo.System.Table.Sound.{IsSound, same_table-IsSound, put_slot-IsSound, alloc_trap-IsSound}
use voodoo.System.Traps.{
  trap_of, create_trap, add_trigger, remove_trigger, queue_cancelled, arm_trap, blocking_of,
  deliver, pump_events,
}
use voodoo.System.Traps.Frame.{trap_of-eq}

-- A trap may be replaced by a trap.
put_trap-IsSound :
    (c : Core) (h : ℕ) (t u : TrapObj)
    → IsSound c
    → trap_of (lookup c h) ≡ some t
    → IsSound (put_slot c h (trap u))
put_trap-IsSound c h t u v e =
    put_slot-IsSound c h (trap t) v (trap_of-eq (lookup c h) t e) refl (trap u) refl refl

pub create_trap-IsSound :
    (handler : Option ℕ) (c : Core) → IsSound c → HasRoom c → IsSound (create_trap handler true c).2
unfolding create_trap
create_trap-IsSound none c v room = v
create_trap-IsSound (some f) c v room =
    alloc_trap-IsSound c (record { handler = some f; triggers = []; armed = false }) v room

pub add_trigger-IsSound :
    (h handle signals condition context : ℕ) (c : Core)
    → IsSound c
    → IsSound (add_trigger h handle signals condition context c).1
unfolding add_trigger
add_trigger-IsSound h handle signals condition context c v =
    elim (Option-cases (trap_of (lookup c h))) [
      | inl n ↦ rw (n, add_trigger) v
      | inr (t, n) ↦
          rw (n, add_trigger)
            (ground (
              arith,
              v,
              put_trap-IsSound c h t
                  (record t {
                    triggers =
                        t.triggers
                        ++ record {
                          watched = handle;
                          signals = signals;
                          condition = condition;
                          context = context;
                        }
                          ∷ [];
                  })
                  v n,
            ))
    ]

queue-IsSound :
    (c : Core) (o : Option ℕ) (context : ℕ) → IsSound c → IsSound (queue_cancelled c o context)
unfolding queue_cancelled
queue-IsSound c none context v = v
queue-IsSound c (some f) context v = same_table-IsSound v refl refl refl

pub remove_trigger-IsSound :
    (h context : ℕ) (c : Core) → IsSound c → IsSound (remove_trigger h context c).1
unfolding remove_trigger
remove_trigger-IsSound h context c v = elim (Option-cases (trap_of (lookup c h))) [
  | inl n ↦ rw (n, remove_trigger) v
  | inr (t, n) ↦ elim (Bool-cases (exists (λ (x : TrapTrigger). x.context == context) t.triggers)) [
    | inl b ↦
        rw (n, remove_trigger, b) (queue-IsSound _ t.handler context (put_trap-IsSound c h t _ v n))
    | inr b ↦ rw (n, remove_trigger, b) v
  ]
]

pub arm_trap-IsSound : (h : ℕ) (c : Core) → IsSound c → IsSound (arm_trap h true c).2
unfolding arm_trap
arm_trap-IsSound h c v = elim (Option-cases (trap_of (lookup c h))) [
  | inl n ↦ rw (n, arm_trap) v
  | inr (t, n) ↦ elim (Bool-cases (ltb 0 (length (blocking_of c t.triggers) % 2 ^ 32))) [
    | inl b ↦ rw (n, arm_trap, b) v
    | inr b ↦ rw (n, arm_trap, b) (put_trap-IsSound c h t _ v n)
  ]
]

pub pump_events-IsSound :
    (run : ℕ → WhpTrapEvent → Core → Core)
    → ((f : ℕ) (e : WhpTrapEvent) (c : Core) → IsSound c → IsSound (run f e c))
    → (c : Core) → IsSound c
    → IsSound (pump_events run c)
unfolding pump_events
pump_events-IsSound run keeps c v = go c.pending_events _ (same_table-IsSound v refl refl refl)
  where
    go : (es : List PendingEvent) (d : Core) → IsSound d → IsSound (deliver run es d)
    go [] d w = w
    go (e ∷ es) d w = go es (run e.handler e.event d) (keeps e.handler e.event d w)
