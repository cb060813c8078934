-- ===== src/System/Traps/Collect.antt =====
-- CollectTrapEvents leaves no trap due, and a trap tells of one event each time it is armed.
use voodoo.Prelude.{
  ℕ, ◌<◌, ◌≡◌, refl, sym, ap, subst, ◌∙◌, inl, inr, List, [], ◌∷◌, ◌++◌, true, false, not, ◌&&◌,
  exists, Option, none, some, arith, ◌==◌, count, indicator, if-true, if-false, is_some, ==_eq,
  ==_refl, Bool-cases, Option-cases,
}
use voodoo.System.Types.{
  Core, Slot, free, message_pipe, message, trap, data_pipe_producer, data_pipe_consumer,
  shared_buffer, platform, TrapObj, TrapTrigger, PendingEvent,
}
use voodoo.System.Table.{lookup}
use voodoo.System.Table.Validity.{IsTable, TrapsListed, is_trap}
use voodoo.System.Table.Free.{lookup-get_or}
use voodoo.System.Traps.{
  trap_of, event_of, fires, first_firing, collect_armed, collect_trap, collect_traps,
  collect_trap_events,
}
use voodoo.System.Traps.Frame.{
  Kept, same, disarmed, Collected, Collected-refl, Collected-trans, first_firing-Collected, is_due,
  collect_trap-not_due, trap_of-eq, disarm, lookup-disarm, disarm-Collected,
}

-- The two outcomes at one trap.
pub data Outcome (c : Core) (th : ℕ) (d : Core) : Type 0 where
  idle : is_due c (trap_of (lookup c th)) ≡ false → d ≡ c → Outcome c th d
  told :
      (t : TrapObj) (handler : ℕ) (x : TrapTrigger)
      → lookup c th ≡ trap t
      → t.armed ≡ true
      → t.handler ≡ some handler
      → first_firing c t.triggers ≡ some x
      → d
        ≡ disarm c th t
            (c.pending_events ++ record { handler = handler; event = event_of c x } ∷ [])
      → Outcome c th d

Outcome-collect_armed :
    (c : Core) (th : ℕ) (t : TrapObj) (handler : ℕ)
    → lookup c th ≡ trap t
    → t.armed ≡ true
    → t.handler ≡ some handler
    → Outcome c th (collect_armed c th t handler)
unfolding collect_armed
Outcome-collect_armed c th t handler e a h = elim (Option-cases (first_firing c t.triggers)) [
  | inl n ↦ idle (ap (λ s. is_due c (trap_of s)) e ∙ ground arith) (rw (n, collect_armed))
  | inr (x, n) ↦ told t handler x e a h n (rw (n, collect_armed))
]

Outcome-some :
    (c : Core) (th : ℕ) (t : TrapObj)
    → lookup c th ≡ trap t
    → Outcome c th (collect_trap c th (some t))
unfolding collect_trap
Outcome-some c th t e = elim (Bool-cases t.armed) [
  | inl a ↦ elim (Option-cases t.handler) [
    | inl n ↦ idle (ap (λ s. is_due c (trap_of s)) e ∙ ground arith) (ground arith)
    | inr (h, n) ↦
        subst (Outcome c th)
          (sym (if-true _ _ a ∙ ap (λ o. elim o [ none ↦ c | some k ↦ collect_armed c th t k ]) n))
          (Outcome-collect_armed c th t h e a n)
  ]
  | inr a ↦ idle (ap (λ s. is_due c (trap_of s)) e ∙ ground arith) (if-false _ _ a)
]

pub collect_trap-Outcome :
    (c : Core) (th : ℕ) → Outcome c th (collect_trap c th (trap_of (lookup c th)))
collect_trap-Outcome c th = elim (Option-cases (trap_of (lookup c th))) [
  | inl n ↦ idle (ap (is_due c) n) (ap (collect_trap c th) n ∙ collect_trap-not_due c th none refl)
  | inr (t, n) ↦
      subst (Outcome c th) (sym (ap (collect_trap c th) n))
        (Outcome-some c th t (trap_of-eq (lookup c th) t n))
]

Outcome-Collected :
    (c : Core) (th : ℕ) (d : Core) → IsTable c → TrapsListed c → Outcome c th d → Collected c d
Outcome-Collected c th d v l (idle n e) = subst (Collected c) (sym e) (Collected-refl c v l)
Outcome-Collected c th d v l (told t h x e a k n f) =
    subst (Collected c) (sym f) (disarm-Collected c th t _ v l e a)

is_due-Collected : (c d : Core) → Collected c d → (o : Option TrapObj) → is_due d o ≡ is_due c o
is_due-Collected c d k none = refl
is_due-Collected c d k (some t) =
    ap (λ f. t.armed && (is_some t.handler && is_some f)) (first_firing-Collected c d k t.triggers)

abbrev pub NotDue : Core → ℕ → Type 0
NotDue c th = is_due c (trap_of (lookup c th)) ≡ false

-- A slot that was not due stays so.
Kept-is_due :
    (c d : Core)
    → Collected c d
    → (s s' : Slot) → Kept s s'
    → is_due c (trap_of s) ≡ false
    → is_due d (trap_of s') ≡ false
Kept-is_due c d k s s' same h = is_due-Collected c d k (trap_of s) ∙ h
Kept-is_due c d k s s' (disarmed t a) h = refl

NotDue-kept : (c d : Core) (th : ℕ) → Collected c d → NotDue c th → NotDue d th
NotDue-kept c d th k = Kept-is_due c d k (lookup c th) (lookup d th) (k.slots th)

Outcome-NotDue :
    (c : Core) (th : ℕ) (d : Core) → IsTable c → TrapsListed c → Outcome c th d → NotDue d th
Outcome-NotDue c th d v l (idle n e) = subst (λ c'. NotDue c' th) (sym e) n
Outcome-NotDue c th d v l (told t h x e a m n f) =
    ap (λ c'. is_due c' (trap_of (lookup c' th))) f
    ∙ ap (λ s. is_due (disarm c th t events) (trap_of s))
        (lookup-disarm c th t events v l e a th ∙ if-true _ _ (==_refl th))
  where
    events : List PendingEvent
    events = c.pending_events ++ record { handler = h; event = event_of c x } ∷ []

-- What collecting from a list of traps leaves.
record Swept (c : Core) (l : List ℕ) (d : Core) : Type 0 where
  collected : Collected c d
  quiet : (th : ℕ) → 0 < count th l → NotDue d th

Swept-cons :
    (c d e : Core) (th : ℕ) (l : List ℕ)
    → Collected c d
    → NotDue d th
    → Swept d l e
    → Swept c (th ∷ l) e
Swept-cons c d e th l k n s = record {
  collected = Collected-trans c d e k s.collected;
  quiet = λ j p. elim (Bool-cases (th == j)) [
    | inl h ↦ subst (NotDue e) (==_eq th j h) (NotDue-kept d e th s.collected n)
    | inr h ↦ s.quiet j (ground arith)
  ];
}

collect_traps-Swept :
    (l : List ℕ) (c : Core) → IsTable c → TrapsListed c → Swept c l (collect_traps c l)
unfolding collect_traps
collect_traps-Swept [] c v t = record {
  collected = Collected-refl c v t;
  quiet = λ th p. absurd (omega arith);
}
collect_traps-Swept (th ∷ l) c v t =
    let d : Core = collect_trap c th (trap_of (lookup c th)) in
    let out : Outcome c th d = collect_trap-Outcome c th in
    let k : Collected c d = Outcome-Collected c th d v t out in
    Swept-cons c d (collect_traps d l) th l k (Outcome-NotDue c th d v t out)
      (collect_traps-Swept l d k.table k.listed)

pub collect_trap_events-Collected :
    (c : Core) → IsTable c → TrapsListed c → Collected c (collect_trap_events c)
unfolding collect_trap_events
collect_trap_events-Collected c v t = (collect_traps-Swept c.traps c v t).collected

due-trap : (c : Core) (s : Slot) → is_due c (trap_of s) ≡ true → is_trap s ≡ true
due-trap c (trap t) e = refl
due-trap c free e = cc
due-trap c (message_pipe x) e = cc
due-trap c (message x) e = cc
due-trap c (data_pipe_producer x) e = cc
due-trap c (data_pipe_consumer x) e = cc
due-trap c (shared_buffer x) e = cc
due-trap c (platform x) e = cc

-- A trap that is due is listed.
due-count :
    (c : Core) (th : ℕ)
    → IsTable c
    → TrapsListed c
    → is_due c (trap_of (lookup c th)) ≡ true
    → count th c.traps ≡ 1
due-count c th v t h =
    t th
    ∙ ap indicator (ap is_trap (sym (lookup-get_or c th v.unused)) ∙ due-trap c (lookup c th) h)

-- No handle is left due.
pub collect_trap_events-NotDue :
    (c : Core) (th : ℕ) → IsTable c → TrapsListed c → NotDue (collect_trap_events c) th
unfolding collect_trap_events
collect_trap_events-NotDue c th v t = elim (Bool-cases (is_due c (trap_of (lookup c th)))) [
  | inl h ↦ (collect_traps-Swept c.traps c v t).quiet th (omega (arith, due-count c th v t h))
  | inr h ↦ NotDue-kept c _ th (collect_traps-Swept c.traps c v t).collected h
]

all_idle : (l : List ℕ) (c : Core) → ((th : ℕ) → NotDue c th) → collect_traps c l ≡ c
unfolding collect_traps
all_idle [] c n = refl
all_idle (th ∷ l) c n =
    ap (λ d. collect_traps d l) (collect_trap-not_due c th (trap_of (lookup c th)) (n th))
    ∙ all_idle l c n

-- In a sound handle table that lists its traps, a second CollectTrapEvents right after the first
-- changes nothing.
pub collect_trap_events-idempotent :
    (c : Core)
    → IsTable c
    → TrapsListed c
    → collect_trap_events (collect_trap_events c) ≡ collect_trap_events c
collect_trap_events-idempotent c v t =
    unfold collect_trap_events in
    all_idle (collect_trap_events c).traps (collect_trap_events c)
      (λ th. collect_trap_events-NotDue c th v t)

-- A trap that is not due stays what it is.
Outcome-still :
    (c : Core) (th : ℕ) (d : Core) (j : ℕ)
    → NotDue c j
    → IsTable c
    → TrapsListed c
    → Outcome c th d
    → lookup d j ≡ lookup c j
Outcome-still c th d j n v l (idle m e) = ap (λ c'. lookup c' j) e
Outcome-still c th d j n v l (told t h x e a k m f) =
    ap (λ c'. lookup c' j) f
    ∙ lookup-disarm c th t (c.pending_events ++ record { handler = h; event = event_of c x } ∷ []) v
        l e a j
    ∙ if-false _ _ other
  where
    due : is_due c (trap_of (lookup c th)) ≡ true
    due = ap (λ s. is_due c (trap_of s)) e ∙ ground (arith, a, k, m)

    other : (j == th) ≡ false
    other = elim (Bool-cases (j == th)) [
      | inl q ↦ absurd (cc (subst (NotDue c) (==_eq j th q) n, due))
      | inr q ↦ q
    ]

collect_traps-still :
    (l : List ℕ) (c : Core) (j : ℕ)
    → NotDue c j
    → IsTable c
    → TrapsListed c
    → lookup (collect_traps c l) j ≡ lookup c j
unfolding collect_traps
collect_traps-still [] c j n v t = refl
collect_traps-still (th ∷ l) c j n v t =
    let d : Core = collect_trap c th (trap_of (lookup c th)) in
    let out : Outcome c th d = collect_trap-Outcome c th in
    let k : Collected c d = Outcome-Collected c th d v t out in
    collect_traps-still l d j (NotDue-kept c d j k n) k.table k.listed
    ∙ Outcome-still c th d j n v t out

-- A trap that was due has been disarmed.
Kept-disarmed :
    (c d : Core) (t : TrapObj) (s s' : Slot)
    → Kept s s'
    → Collected c d
    → s ≡ trap t
    → is_due c (some t) ≡ true
    → is_due d (trap_of s') ≡ false
    → s' ≡ trap (record t { armed = false })
Kept-disarmed c d t s s' same k e h n =
    absurd (cc (n, ap (λ u. is_due d (trap_of u)) e ∙ is_due-Collected c d k (some t) ∙ h))
Kept-disarmed c d t s s' (disarmed u a) k e h n =
    ap (λ (o : Option TrapObj). elim o [ none ↦ s' | some w ↦ trap (record w { armed = false }) ])
      (ap trap_of e)

-- The loop over the triggers finds one exactly where one fires.
is_some-first_firing :
    (c : Core) (ts : List TrapTrigger) → is_some (first_firing c ts) ≡ exists (fires c) ts
unfolding first_firing
is_some-first_firing c [] = refl
is_some-first_firing c (x ∷ ts) = elim (Bool-cases (fires c x)) [
  | inl h ↦ rw h
  | inr h ↦ rw h (is_some-first_firing c ts)
]

-- In a sound handle table that lists its traps, CollectTrapEvents leaves a trap armed exactly where
-- it was armed and has no handler or no trigger, wherever it stands in the list, that fires; and
-- nothing else of the trap changes.
pub collect_trap_events-armed :
    (c : Core) (th : ℕ) (t : TrapObj)
    → IsTable c
    → TrapsListed c
    → lookup c th ≡ trap t
    → lookup (collect_trap_events c) th
      ≡ trap
          (record t { armed = t.armed && not (is_some t.handler && exists (fires c) t.triggers) })
unfolding collect_trap_events
collect_trap_events-armed c th t v l e = elim (Bool-cases (is_due c (some t))) [
  | inl h ↦
      Kept-disarmed c (collect_trap_events c) t (lookup c th) (lookup (collect_trap_events c) th)
        ((collect_trap_events-Collected c v l).slots th) (collect_trap_events-Collected c v l) e h
        (collect_trap_events-NotDue c th v l)
      ∙ ap (λ b. trap (record t { armed = b }))
          (ground (arith, h, is_some-first_firing c t.triggers))
  | inr h ↦
      collect_traps-still c.traps c th (ap (λ s. is_due c (trap_of s)) e ∙ h) v l
      ∙ e
      ∙ ap (λ b. trap (record t { armed = b }))
          (ground (arith, h, is_some-first_firing c t.triggers))
]
