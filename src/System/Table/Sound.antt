-- ===== src/System/Table/Sound.antt =====
-- The invariant of the table as one record, and how the elementary changes keep it.
use voodoo.Prelude.{
  ℕ, ◌<◌, ◌≡◌, refl, sym, ap, subst, ◌∙◌, List, [], ◌∷◌, ◌++◌, false, arith, ◌==◌, indicator,
  length, get_or, count, count-append, remove_if, count-remove_if, get_or-set_self, get_or-set_ne,
  get_or_above,
}
use voodoo.System.Types.{Core, Slot, free, trap, TrapObj}
use voodoo.System.Table.{lookup, alloc, alloc_from, free_handle, put_slot}
use voodoo.System.Table.Validity.{
  IsTable, TrapsListed, is_free, is_trap, vacant, get_or-append, head_vacant,
}
use voodoo.System.Table.Alloc.{Allocated, HasRoom, alloc-Allocated, alloc-IsTable}
use voodoo.System.Table.Free.{
  Live, lookup-Live, free_handle-IsTable, free_handle-TrapsListed, put_slot-IsTable,
  put_slot-TrapsListed, get_or-free_handle, traps-alloc,
}

-- The free list and the list of traps are right.
pub record IsSound (c : Core) : Type 0 where
  pub table : IsTable c
  pub listed : TrapsListed c

-- A change of the store behind the slots keeps it.
pub same_table-IsSound :
    {c d : Core}
    → IsSound c
    → d.slots ≡ c.slots
    → d.free_list ≡ c.free_list
    → d.traps ≡ c.traps
    → IsSound d
same_table-IsSound {c} {d} v s f t = record {
  table = record {
    nonempty = subst (λ l. 0 < length l) (sym s) v.table.nonempty;
    unused = ap (λ l. get_or l 0 free) s ∙ v.table.unused;
    vacancies =
        λ h. ap (count h) f ∙ v.table.vacancies h ∙ ap (λ l. indicator (vacant l h)) (sym s);
  };
  listed =
      λ h. ap (count h) t ∙ v.listed h ∙ ap (λ l. indicator (is_trap (get_or l h free))) (sym s);
}

module _ (c : Core) (h : ℕ) (s : Slot) (v : IsSound c) (found : lookup c h ≡ s)
    (f : is_free s ≡ false) where
  pub put_slot-IsSound :
      (s' : Slot) → is_free s' ≡ false → is_trap s' ≡ is_trap s → IsSound (put_slot c h s')
  put_slot-IsSound s' f' e = record {
    table = put_slot-IsTable c h s (lookup-Live c h s found f) s' v.table f f';
    listed = put_slot-TrapsListed c h s (lookup-Live c h s found f) s' v.listed e;
  }

  pub free_handle-IsSound : is_trap s ≡ false → IsSound (free_handle c h)
  free_handle-IsSound e = record {
    table = free_handle-IsTable c h s (lookup-Live c h s found f) v.table f;
    listed = free_handle-TrapsListed c h s (lookup-Live c h s found f) v.listed e;
  }

alloc_from-TrapsListed :
    (c : Core) (s : Slot) (l : List ℕ)
    → IsTable c
    → TrapsListed c
    → l ≡ c.free_list
    → is_trap s ≡ false
    → TrapsListed (alloc_from c s l).1
unfolding alloc_from
alloc_from-TrapsListed c s [] v t e f j =
    ground (arith, t j, get_or-append c.slots s j, get_or_above c.slots (length c.slots) free)
alloc_from-TrapsListed c s (h ∷ rest) v t e f j = ground (
  arith,
  t j,
  head_vacant c.slots h rest (ap (count h) e ∙ v.vacancies h),
  get_or-set_self c.slots h s free,
  get_or-set_ne c.slots h j s free,
)

module _ (c : Core) (s : Slot) (v : IsSound c) (f : is_free s ≡ false) where
  pub alloc-IsSound : is_trap s ≡ false → IsSound (alloc c s).1
  unfolding alloc
  alloc-IsSound e = record {
    table = alloc-IsTable c s v.table f;
    listed = alloc_from-TrapsListed c s c.free_list v.table v.listed refl e;
  }

-- A new trap is listed at the end.
pub alloc_trap-IsSound :
    (c : Core) (t : TrapObj)
    → IsSound c
    → HasRoom c
    → let (h, d) = alloc c (trap t) in IsSound (record d { traps = d.traps ++ h ∷ [] })
alloc_trap-IsSound c t v room = record {
  table = ground (arith, alloc-IsTable c (trap t) v.table refl);
  listed = λ j. ground (
    arith,
    new.slot j,
    new.was_free,
    v.listed j,
    traps-alloc c (trap t),
    count-append j c.traps (h ∷ []),
  );
}
  where
    h : ℕ
    h = (alloc c (trap t)).0

    new : Allocated c (trap t) (alloc c (trap t))
    new = alloc-Allocated c (trap t) v.table room

traps-free_handle : (c : Core) (h : ℕ) → (free_handle c h).traps ≡ c.traps
unfolding free_handle
traps-free_handle c h = ground arith

-- A trap that is freed is taken off the list.
pub free_trap-IsSound :
    (c d : Core) (h : ℕ) (t : TrapObj)
    → IsSound c
    → lookup c h ≡ trap t
    → d.slots ≡ c.slots
    → d.free_list ≡ c.free_list
    → d.traps ≡ remove_if (λ (x : ℕ). x == h) c.traps
    → IsSound (free_handle d h)
free_trap-IsSound c d h t v e s f r = record {
  table = free_handle-IsTable d h (trap t) live table refl;
  listed = λ j. ground (
    arith,
    v.listed j,
    ap (count j) (traps-free_handle d h ∙ r),
    count-remove_if j h c.traps,
    get_or-free_handle d h (trap t) live j,
    ap (λ l. get_or l j free) s,
  );
}
  where
    table : IsTable d
    table = record {
      nonempty = subst (λ l. 0 < length l) (sym s) v.table.nonempty;
      unused = ap (λ l. get_or l 0 free) s ∙ v.table.unused;
      vacancies =
          λ j. ap (count j) f ∙ v.table.vacancies j ∙ ap (λ l. indicator (vacant l j)) (sym s);
    }

    was : Live c h (trap t)
    was = lookup-Live c h (trap t) e refl

    live : Live d h (trap t)
    live = record {
      not_null = was.not_null;
      in_range = subst (λ l. h < length l) (sym s) was.in_range;
      slot = ap (λ l. get_or l h free) s ∙ was.slot;
    }
