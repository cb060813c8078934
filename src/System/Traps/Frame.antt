-- ===== src/System/Traps/Frame.antt =====
-- What CollectTrapEvents leaves alone: the store, and every slot but the traps that it disarms.
use voodoo.Prelude.{
  ℕ, ◌≡◌, refl, sym, ap, ap₂, subst, ◌∙◌, inl, inr, List, [], ◌∷◌, Bool, true, false, ◌&&◌, Option,
  none, some, arith, ◌==◌, if◌then◌else◌, get_or, subst₂, if-true, if-false, is_some, ==_eq,
  Bool-cases,
}
use voodoo.System.Types.{
  Core, Slot, free, message_pipe, message, trap, data_pipe_producer, data_pipe_consumer,
  shared_buffer, platform, TrapObj, TrapTrigger, PendingEvent, new_pipe, new_data_pipe,
}
use voodoo.System.Table.{lookup, put_slot}
use voodoo.System.Table.Validity.{IsTable, TrapsListed, is_trap}
use voodoo.System.Table.Free.{
  Live, lookup-Live, lookup-put_slot, put_slot-IsTable, put_slot-TrapsListed,
}
use voodoo.System.Signals.{
  query_locked, signals_match, slot_signals, pipe_signals, data_pipe_signals,
}
use voodoo.System.Traps.{trap_of, fires, first_firing, collect_armed, collect_trap}

-- What a trap event never touches.
pub record SameStore (c d : Core) : Type 0 where
  pub free_list : d.free_list ≡ c.free_list
  pub traps : d.traps ≡ c.traps
  pub pipes : d.pipes ≡ c.pipes
  pub data_pipes : d.data_pipes ≡ c.data_pipes
  pub buffers : d.buffers ≡ c.buffers
  pub maps : d.maps ≡ c.maps
  pub closed_native : d.closed_native ≡ c.closed_native

-- A slot afterwards: as it was, or a trap that has been disarmed.
pub data Kept : Slot → Slot → Type 0 where
  same : {s : Slot} → Kept s s
  disarmed : (t : TrapObj) → t.armed ≡ true → Kept (trap t) (trap (record t { armed = false }))

Kept-trans : {s t u : Slot} → Kept s t → Kept t u → Kept s u
Kept-trans same k = k
Kept-trans (disarmed t e) same = disarmed t e
Kept-trans (disarmed t e) (disarmed u e') = cc

-- Only a trap changes.
pub Kept-other : {s t : Slot} → Kept s t → is_trap s ≡ false → t ≡ s
Kept-other same e = refl
Kept-other (disarmed t a) e = cc

pub slot_signals-Kept :
    {c d : Core} {s t : Slot} → SameStore c d → Kept s t → slot_signals d t ≡ slot_signals c s
unfolding slot_signals
slot_signals-Kept f (same {s = free}) = refl
slot_signals-Kept f (same {s = message_pipe e}) =
    ap (λ p. pipe_signals (get_or p e.state new_pipe) e.side) f.pipes
slot_signals-Kept f (same {s = message m}) = refl
slot_signals-Kept f (same {s = trap t}) = refl
slot_signals-Kept f (same {s = data_pipe_producer e}) =
    ap (λ p. data_pipe_signals (get_or p e.state new_data_pipe) e.producer) f.data_pipes
slot_signals-Kept f (same {s = data_pipe_consumer e}) =
    ap (λ p. data_pipe_signals (get_or p e.state new_data_pipe) e.producer) f.data_pipes
slot_signals-Kept f (same {s = shared_buffer b}) = refl
slot_signals-Kept f (same {s = platform p}) = refl
slot_signals-Kept f (disarmed t e) = refl

-- What collecting from a trap, or from several, leaves.
pub record Collected (c d : Core) : Type 0 where
  pub store : SameStore c d
  pub slots : (j : ℕ) → Kept (lookup c j) (lookup d j)
  pub table : IsTable d
  pub listed : TrapsListed d

pub Collected-refl : (c : Core) → IsTable c → TrapsListed c → Collected c c
Collected-refl c v t = record {
  store = record {
    free_list = refl;
    traps = refl;
    pipes = refl;
    data_pipes = refl;
    buffers = refl;
    maps = refl;
    closed_native = refl;
  };
  slots = λ j. same;
  table = v;
  listed = t;
}

pub Collected-trans : (c d e : Core) → Collected c d → Collected d e → Collected c e
Collected-trans c d e p q = record {
  store = ground (arith, p.store, q.store);
  slots = λ j. Kept-trans (p.slots j) (q.slots j);
  table = q.table;
  listed = q.listed;
}

module _ (c d : Core) (k : Collected c d) where
  pub query_locked-Collected : (h : ℕ) → query_locked d h ≡ query_locked c h
  unfolding query_locked
  query_locked-Collected h = slot_signals-Kept k.store (k.slots h)

  pub fires-Collected : (x : TrapTrigger) → fires d x ≡ fires c x
  unfolding fires
  fires-Collected x =
      ap (λ st. signals_match st x.signals x.condition) (query_locked-Collected x.watched)

  pub first_firing-Collected : (ts : List TrapTrigger) → first_firing d ts ≡ first_firing c ts
  unfolding first_firing
  first_firing-Collected [] = refl
  first_firing-Collected (x ∷ ts) =
      ap₂ (λ b r. if b then some x else r) (fires-Collected x) (first_firing-Collected ts)

-- A trap that would queue an event now.
abbrev pub is_due : Core → Option TrapObj → Bool
is_due c none = false
is_due c (some t) = t.armed && (is_some t.handler && is_some (first_firing c t.triggers))

pub collect_trap-not_due :
    (c : Core) (th : ℕ) (o : Option TrapObj) → is_due c o ≡ false → collect_trap c th o ≡ c
unfolding collect_trap collect_armed
collect_trap-not_due c th none e = refl
collect_trap-not_due c th (some t) e = ground arith

pub trap_of-eq : (s : Slot) (t : TrapObj) → trap_of s ≡ some t → s ≡ trap t
trap_of-eq (trap u) t e = ground arith
trap_of-eq free t e = cc
trap_of-eq (message_pipe x) t e = cc
trap_of-eq (message x) t e = cc
trap_of-eq (data_pipe_producer x) t e = cc
trap_of-eq (data_pipe_consumer x) t e = cc
trap_of-eq (shared_buffer x) t e = cc
trap_of-eq (platform x) t e = cc

abbrev pub disarm : Core → ℕ → TrapObj → List PendingEvent → Core
disarm c th t es = record (put_slot c th (trap (record t { armed = false }))) {
  pending_events = es;
}

module _ (c : Core) (th : ℕ) (t : TrapObj) (es : List PendingEvent) (v : IsTable c)
    (l : TrapsListed c) (e : lookup c th ≡ trap t) (armed : t.armed ≡ true) where
  live : Live c th (trap t)
  live = lookup-Live c th (trap t) e refl

  pub lookup-disarm :
      (j : ℕ)
      → lookup (disarm c th t es) j
        ≡ (if j == th then trap (record t { armed = false }) else lookup c j)
  unfolding lookup
  lookup-disarm j = lookup-put_slot c th (trap t) live (trap (record t { armed = false })) j

  pub disarm-Kept : (j : ℕ) → Kept (lookup c j) (lookup (disarm c th t es) j)
  disarm-Kept j = elim (Bool-cases (j == th)) [
    | inl h ↦
        subst₂ Kept (sym (ap (lookup c) (==_eq j th h) ∙ e)) (sym (lookup-disarm j ∙ if-true _ _ h))
          (disarmed t armed)
    | inr h ↦ subst (Kept (lookup c j)) (sym (lookup-disarm j ∙ if-false _ _ h)) same
  ]

  pub disarm-Collected : Collected c (disarm c th t es)
  unfolding put_slot
  disarm-Collected = record {
    store = record {
      free_list = refl;
      traps = refl;
      pipes = refl;
      data_pipes = refl;
      buffers = refl;
      maps = refl;
      closed_native = refl;
    };
    slots = disarm-Kept;
    table = ground (
      arith,
      put_slot-IsTable c th (trap t) live (trap (record t { armed = false })) v refl refl,
    );
    listed = put_slot-TrapsListed c th (trap t) live (trap (record t { armed = false })) l refl;
  }
