-- ===== src/System/Table/Alloc.antt =====
-- Core::Alloc hands out a handle that was free, and touches no other slot.
use voodoo.Prelude.{
  ℕ, ◌^◌, ◌<◌, ◌≡◌, ◌≢◌, refl, ap, ◌∙◌, List, [], ◌∷◌, false, arith, ◌==◌, if◌then◌else◌, length,
  get_or, count, get_or-set_self, get_or-set_ne, length-set, length-append, get_or_above,
}
use voodoo.System.Types.{Core, Slot, free}
use voodoo.System.Table.{alloc, alloc_from}
use voodoo.System.Table.Validity.{
  is_free, IsTable, head_vacant, vacant-set, vacant-append, get_or-append,
}

-- Room for one more handle in the 32 bits of `WhpHandle`.
abbrev pub HasRoom : Core → Type 0
HasRoom c = length c.slots < 2 ^ 32

-- What `Alloc` did: the handle is new, its slot holds the object, and no other slot has changed.
pub record Allocated (c : Core) (s : Slot) (r : ℕ × Core) : Type 0 where
  pub not_null : r.0 ≢ 0
  pub in_range : r.0 < length r.1.slots
  pub was_free : get_or c.slots r.0 free ≡ free
  pub slot : (j : ℕ) → get_or r.1.slots j free ≡ (if j == r.0 then s else get_or c.slots j free)

alloc_from-Allocated :
    (c : Core) (s : Slot) (l : List ℕ)
    → IsTable c
    → HasRoom c
    → l ≡ c.free_list
    → Allocated c s (alloc_from c s l)
unfolding alloc_from
alloc_from-Allocated c s [] v room e = record {
  not_null = omega (arith, v.nonempty);
  in_range = omega (arith, length-append c.slots (s ∷ []));
  was_free = ground (arith, get_or_above c.slots (length c.slots) free);
  slot = λ j. ground (arith, get_or-append c.slots s j);
}
alloc_from-Allocated c s (h ∷ rest) v room e =
    let head : (h ≢ 0) × (h < length c.slots) × (get_or c.slots h free ≡ free) =
      head_vacant c.slots h rest (ap (count h) e ∙ v.vacancies h) in
    record {
      not_null = head.0;
      in_range = rw length-set head.1;
      was_free = head.2;
      slot =
          λ j. ground (arith, get_or-set_self c.slots h s free, get_or-set_ne c.slots h j s free);
    }

alloc_from-IsTable :
    (c : Core) (s : Slot) (l : List ℕ)
    → IsTable c
    → is_free s ≡ false
    → l ≡ c.free_list
    → IsTable (alloc_from c s l).1
unfolding alloc_from
alloc_from-IsTable c s [] v f e = record {
  nonempty = omega (arith, length-append c.slots (s ∷ []), v.nonempty);
  unused = ground (arith, get_or-append c.slots s 0, v.nonempty, v.unused);
  vacancies = λ j. ground (
    arith,
    v.vacancies j,
    vacant-append c.slots s j v.nonempty,
    get_or_above c.slots (length c.slots) free,
  );
}
alloc_from-IsTable c s (h ∷ rest) v f e =
    let head : (h ≢ 0) × (h < length c.slots) × (get_or c.slots h free ≡ free) =
      head_vacant c.slots h rest (ap (count h) e ∙ v.vacancies h) in
    record {
      nonempty = rw length-set v.nonempty;
      unused = ground (arith, get_or-set_ne c.slots h 0 s free, v.unused);
      vacancies = λ j. ground (
        arith,
        ap (count j) e ∙ v.vacancies j,
        vacant-set c.slots s h j head.1,
        length-set c.slots h s,
        head,
      );
    }

module _ (c : Core) (s : Slot) where
  pub alloc-Allocated : IsTable c → HasRoom c → Allocated c s (alloc c s)
  unfolding alloc
  alloc-Allocated v room = alloc_from-Allocated c s c.free_list v room refl

  pub alloc-IsTable : IsTable c → is_free s ≡ false → IsTable (alloc c s).1
  unfolding alloc
  alloc-IsTable v f = alloc_from-IsTable c s c.free_list v f refl
