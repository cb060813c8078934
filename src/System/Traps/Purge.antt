-- ===== src/System/Traps/Purge.antt =====
-- What closing a trap does to the events that wait: the part of WhpClose for a trap.
use voodoo.Prelude.{
  ℕ, ◌≡◌, sym, ap, ◌∙◌, inl, inr, List, [], ◌∷◌, Bool, true, arith, ◌==◌, if◌then◌else◌, remove_if,
  exists, Bool-cases, if-true, if-false, ==_eq,
}
use voodoo.System.Types.{Core, TrapObj, TrapTrigger, PendingEvent}
use voodoo.System.Traps.{close_trap}

-- Whether an event of the queue carries a context.
abbrev pub carries : ℕ → PendingEvent → Bool
carries context e = e.event.trigger_context == context

-- Whether a trap still has a trigger of a context.
abbrev pub has_context : TrapObj → ℕ → Bool
has_context t context = exists (λ (x : TrapTrigger). x.context == context) t.triggers

-- The events that carry a context, in order.
abbrev pub events_of : ℕ → List PendingEvent → List PendingEvent
events_of context [] = []
events_of context (e ∷ es) =
    let rest = events_of context es in if carries context e then e ∷ rest else rest

abbrev purge : TrapObj → List PendingEvent → List PendingEvent
purge t es = remove_if (λ (e : PendingEvent). has_context t e.event.trigger_context) es

-- A context that the trap lacks is on no event that is dropped.
carries-has_context :
    (t : TrapObj) (context : ℕ) (e : PendingEvent)
    → carries context e ≡ true
    → has_context t e.event.trigger_context ≡ has_context t context
carries-has_context t context e h = ap (has_context t) (==_eq e.event.trigger_context context h)

-- One event more in front.
purge_head :
    (t : TrapObj) (context : ℕ) (e : PendingEvent) (es rest : List PendingEvent)
    → events_of context rest ≡ (if has_context t context then [] else events_of context es)
    → events_of context (if has_context t e.event.trigger_context then rest else e ∷ rest)
      ≡ (if has_context t context then [] else events_of context (e ∷ es))
purge_head t context e es rest ih = elim (Bool-cases (carries context e)) [
  | inl a ↦
      let n : has_context t e.event.trigger_context ≡ has_context t context =
        carries-has_context t context e a in
      elim (Bool-cases (has_context t e.event.trigger_context)) [
        | inl b ↦
            ap (events_of context) (if-true _ _ b)
            ∙ ih
            ∙ if-true _ _ (sym n ∙ b)
            ∙ sym (if-true _ _ (sym n ∙ b))
        | inr b ↦
            ap (events_of context) (if-false _ _ b)
            ∙ if-true _ _ a
            ∙ ap (λ l. e ∷ l) (ih ∙ if-false _ _ (sym n ∙ b))
            ∙ sym (if-true _ _ a)
            ∙ sym (if-false _ _ (sym n ∙ b))
      ]
  | inr a ↦
      let other : (if has_context t context then [] else events_of context es)
          ≡ (if has_context t context then [] else events_of context (e ∷ es)) =
        ap (λ l. if has_context t context then [] else l) (sym (if-false _ _ a)) in
      elim (Bool-cases (has_context t e.event.trigger_context)) [
        | inl b ↦ ap (events_of context) (if-true _ _ b) ∙ ih ∙ other
        | inr b ↦ ap (events_of context) (if-false _ _ b) ∙ if-false _ _ a ∙ ih ∙ other
      ]
]

purge_lem :
    (t : TrapObj) (context : ℕ) (es : List PendingEvent)
    → events_of context (purge t es) ≡ (if has_context t context then [] else events_of context es)
purge_lem t context [] = ground arith
purge_lem t context (e ∷ es) = purge_head t context e es (purge t es) (purge_lem t context es)

-- Closing a trap leaves, of the events that wait with any one context, none where the trap has a
-- trigger of that context, and all of them in their order where it has none.
pub close_trap_purges :
    (c : Core) (h : ℕ) (t : TrapObj) (context : ℕ)
    → events_of context (close_trap c h t).pending_events
      ≡ (if has_context t context then [] else events_of context c.pending_events)
unfolding close_trap
close_trap_purges c h t context = purge_lem t context c.pending_events
