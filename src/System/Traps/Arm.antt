-- ===== src/System/Traps/Arm.antt =====
-- WhpArmTrap arms a trap only if it has nothing to tell.
use voodoo.Prelude.{
  ℕ, ◌<◌, ◌≤◌, ◌≡◌, ◌%◌, ◌^◌, refl, sym, ap, subst, ◌∙◌, inl, inr, List, [], ◌∷◌, Bool, true, false,
  Option, none, some, arith, ltb, ◌==◌, if◌then◌else◌, length, count_if, exists, Bool-cases,
  if-true, if-false, ==_eq, ==_refl,
}
use voodoo.System.Types.{Core, trap, TrapObj, TrapTrigger, WhpResult, ok, failed_precondition}
use voodoo.System.Table.{lookup, put_slot}
use voodoo.System.Table.Validity.{IsTable, TrapsListed}
use voodoo.System.Table.Free.{lookup-Live, lookup-put_slot, put_slot-IsTable, put_slot-TrapsListed}
use voodoo.System.Signals.{query_locked, slot_signals, signals_match}
use voodoo.System.Traps.{trap_of, fires, blocking_of, arm_trap, collect_trap_events}
use voodoo.System.Traps.Frame.{SameStore, same, slot_signals-Kept}
use voodoo.System.Traps.Collect.{collect_trap_events-armed}

-- The loop stores an event for each trigger that fires.
length-blocking_of :
    (c : Core) (ts : List TrapTrigger) → length (blocking_of c ts) ≡ count_if (fires c) ts
unfolding blocking_of
length-blocking_of c [] = refl
length-blocking_of c (x ∷ ts) = elim (Bool-cases (fires c x)) [
  | inl f ↦ rw f (omega (arith, length-blocking_of c ts))
  | inr f ↦ rw f (omega (arith, length-blocking_of c ts))
]

count_if-le {ℓ} : {A : Type ℓ} (p : A → Bool) (xs : List A) → count_if p xs ≤ length xs
count_if-le p [] = omega arith
count_if-le p (x ∷ xs) = elim (Bool-cases (p x)) [
  | inl f ↦ rw f (omega (arith, count_if-le p xs))
  | inr f ↦ rw f (omega (arith, count_if-le p xs))
]

module _ (c : Core) (h : ℕ) (t : TrapObj) (e : lookup c h ≡ trap t) where
  armed : Core
  armed = put_slot c h (trap (record t { armed = true }))

  lookup-armed :
      (j : ℕ) → lookup armed j ≡ (if j == h then trap (record t { armed = true }) else lookup c j)
  unfolding armed
  lookup-armed j =
      lookup-put_slot c h (trap t) (lookup-Live c h (trap t) e refl)
        (trap (record t { armed = true })) j

  store : SameStore c armed
  unfolding armed put_slot
  store = record {
    free_list = refl;
    traps = refl;
    pipes = refl;
    data_pipes = refl;
    buffers = refl;
    maps = refl;
    closed_native = refl;
  }

  query_locked-armed : (j : ℕ) → query_locked armed j ≡ query_locked c j
  unfolding query_locked slot_signals
  query_locked-armed j = elim (Bool-cases (j == h)) [
    | inl q ↦
        ap (slot_signals armed) (lookup-armed j ∙ if-true _ _ q)
        ∙ sym (ap (slot_signals c) (ap (lookup c) (==_eq j h q) ∙ e))
    | inr q ↦
        ap (slot_signals armed) (lookup-armed j ∙ if-false _ _ q) ∙ slot_signals-Kept store same
  ]

  fires-armed : (x : TrapTrigger) → fires armed x ≡ fires c x
  unfolding fires
  fires-armed x = ap (λ st. signals_match st x.signals x.condition) (query_locked-armed x.watched)

  exists-armed :
      (ts : List TrapTrigger) → count_if (fires c) ts ≡ 0 → exists (fires armed) ts ≡ false
  exists-armed [] z = refl
  exists-armed (x ∷ ts) z = elim (Bool-cases (fires c x)) [
    | inl f ↦ absurd (ground (arith, z, f))
    | inr f ↦ rw (fires-armed x, f) (exists-armed ts (ground (arith, z, f)))
  ]

  module _ (v : IsTable c) (l : TrapsListed c) where
    -- A CollectTrapEvents right after finds the trap with nothing to tell.
    collect-armed :
        count_if (fires c) t.triggers ≡ 0
        → lookup (collect_trap_events armed) h ≡ trap (record t { armed = true })
    unfolding armed
    collect-armed z =
        collect_trap_events-armed armed h (record t { armed = true })
          (put_slot-IsTable c h (trap t) (lookup-Live c h (trap t) e refl)
            (trap (record t { armed = true })) v refl refl)
          (put_slot-TrapsListed c h (trap t) (lookup-Live c h (trap t) e refl)
            (trap (record t { armed = true })) l refl)
          (lookup-armed h ∙ if-true _ _ (==_refl h))
        ∙ ap (λ b. trap (record t { armed = b })) (ground (arith, exists-armed t.triggers z))

  blocked : ℕ
  blocked = count_if (fires c) t.triggers

  module _ (small : length t.triggers < 2 ^ 32) where
    counted : length (blocking_of c t.triggers) % 2 ^ 32 ≡ blocked
    unfolding blocked
    counted = omega (arith, length-blocking_of c t.triggers, count_if-le (fires c) t.triggers)

    -- What the count decides.
    decided : ℕ → WhpResult × Option ℕ × Core
    decided n =
        if ltb 0 n
        then (failed_precondition, some n, c)
        else (ok, none, put_slot c h (trap (record t { armed = true })))

    refused : 0 < blocked → arm_trap h true c ≡ (failed_precondition, some blocked, c)
    unfolding arm_trap decided
    refused b =
        rw (ap trap_of e, arm_trap)
          (ap decided counted ∙ if-true {b = ltb 0 blocked} _ _ (ground arith))

    accepted : blocked ≡ 0 → arm_trap h true c ≡ (ok, none, armed)
    unfolding arm_trap armed decided
    accepted b =
        rw (ap trap_of e, arm_trap)
          (ap decided counted ∙ if-false {b = ltb 0 blocked} _ _ (ground arith))

-- WhpArmTrap of a live trap with fewer than 2 ^ 32 triggers, in a sound handle table that lists its
-- traps: if some trigger fires already, it fails with failed_precondition and the number of triggers
-- that do, and changes nothing; if none does, it succeeds, no handle but the trap changes, the trap
-- is armed, and stays so in a CollectTrapEvents right after.
pub arm_trap_lem :
    (c : Core) (h : ℕ) (t : TrapObj)
    → IsTable c
    → TrapsListed c
    → lookup c h ≡ trap t
    → length t.triggers < 2 ^ 32
    → let (result, blocking, d) = arm_trap h true c in
      (0 < count_if (fires c) t.triggers
        → (result ≡ failed_precondition)
          × (blocking ≡ some (count_if (fires c) t.triggers))
          × (d ≡ c))
      × (count_if (fires c) t.triggers ≡ 0
          → (result ≡ ok)
            × (blocking ≡ none)
            × ((j : ℕ)
                → lookup d j ≡ (if j == h then trap (record t { armed = true }) else lookup c j))
            × (lookup (collect_trap_events d) h ≡ trap (record t { armed = true })))
arm_trap_lem c h t v l e small =
    unfold blocked in
    (
      λ b. let r = refused c h t e small b in (ap (λ o. o.0) r, ap (λ o. o.1) r, ap (λ o. o.2) r),
      λ b.
          subst Quiet (sym (accepted c h t e small b))
            (refl, refl, lookup-armed c h t e, collect-armed c h t e v l b),
    )
  where
    Quiet : WhpResult × Option ℕ × Core → Type 0
    Quiet r =
        (r.0 ≡ ok)
        × (r.1 ≡ none)
        × ((j : ℕ)
            → lookup r.2 j ≡ (if j == h then trap (record t { armed = true }) else lookup c j))
        × (lookup (collect_trap_events r.2) h ≡ trap (record t { armed = true }))
