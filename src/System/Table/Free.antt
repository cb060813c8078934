-- ===== src/System/Table/Free.antt =====
-- Core::Lookup and Core::Free, and a write through the pointer that Lookup returns.
use voodoo.Prelude.{
  ℕ, ◌+◌, ◌≤◌, List, [], ◌∷◌, length-append, ◌<◌, ◌≡◌, ◌≢◌, ap, false, ◌||◌, arith, leb, ◌==◌,
  if◌then◌else◌, length, get_or, get_or-set_self, get_or-set_ne, length-set, get_or_above,
}
use voodoo.System.Types.{Core, Slot, free}
use voodoo.System.Table.{lookup, alloc, alloc_from, free_handle, put_slot}
use voodoo.System.Table.Validity.{is_free, is_trap, IsTable, TrapsListed, vacant-set}
use voodoo.System.Table.Alloc.{Allocated}

-- A handle that Lookup finds is in range, and its slot is the one found.
pub record Live (c : Core) (h : ℕ) (s : Slot) : Type 0 where
  pub not_null : h ≢ 0
  pub in_range : h < length c.slots
  pub slot : get_or c.slots h free ≡ s

pub lookup-Live : (c : Core) (h : ℕ) (s : Slot) → lookup c h ≡ s → is_free s ≡ false → Live c h s
unfolding lookup
lookup-Live c h s e f = ground arith

pub Live-lookup : (c : Core) (h : ℕ) (s : Slot) → Live c h s → lookup c h ≡ s
unfolding lookup
Live-lookup c h s l = ground arith

-- Past the first slot, Lookup is a read of the slot.
pub lookup-get_or :
    (c : Core) (h : ℕ) → get_or c.slots 0 free ≡ free → lookup c h ≡ get_or c.slots h free
unfolding lookup
lookup-get_or c h e = ground (arith, get_or_above c.slots h free)

pub lookup-slots : (c d : Core) (h : ℕ) → d.slots ≡ c.slots → lookup d h ≡ lookup c h
unfolding lookup
lookup-slots c d h s = ap (λ l. if h == 0 || leb (length l) h then free else get_or l h free) s

pub pipes-free_handle : (c : Core) (h : ℕ) → (free_handle c h).pipes ≡ c.pipes
unfolding free_handle
pipes-free_handle c h = ground arith

pub data_pipes-free_handle : (c : Core) (h : ℕ) → (free_handle c h).data_pipes ≡ c.data_pipes
unfolding free_handle
data_pipes-free_handle c h = ground arith

module _ (c : Core) (h : ℕ) (s : Slot) (l : Live c h s) where
  -- Free empties the slot of the handle and no other.
  pub get_or-free_handle :
      (j : ℕ)
      → get_or (free_handle c h).slots j free ≡ (if j == h then free else get_or c.slots j free)
  unfolding free_handle
  get_or-free_handle j =
      ground (arith, l, get_or-set_self c.slots h free free, get_or-set_ne c.slots h j free free)

  pub lookup-free_handle :
      (j : ℕ) → lookup (free_handle c h) j ≡ (if j == h then free else lookup c j)
  unfolding lookup free_handle
  lookup-free_handle j = ground (
    arith,
    l,
    get_or-set_self c.slots h free free,
    get_or-set_ne c.slots h j free free,
    length-set c.slots h free,
  )

  pub free_handle-IsTable : IsTable c → is_free s ≡ false → IsTable (free_handle c h)
  unfolding free_handle
  free_handle-IsTable v f = record {
    nonempty = ground (arith, l, v.nonempty, length-set c.slots h free);
    unused = ground (arith, l, get_or-set_ne c.slots h 0 free free, v.unused);
    vacancies = λ j. ground (
      arith,
      l,
      v.vacancies j,
      v.vacancies h,
      vacant-set c.slots free h j,
      length-set c.slots h free,
    );
  }

  pub free_handle-TrapsListed : TrapsListed c → is_trap s ≡ false → TrapsListed (free_handle c h)
  unfolding free_handle
  free_handle-TrapsListed t f j =
      ground
        (arith, l, t j, get_or-set_self c.slots h free free, get_or-set_ne c.slots h j free free)

  -- A write through the pointer that Lookup returned changes that object alone.
  pub lookup-put_slot :
      (s' : Slot) (j : ℕ) → lookup (put_slot c h s') j ≡ (if j == h then s' else lookup c j)
  unfolding lookup put_slot
  lookup-put_slot s' j = ground (
    arith,
    l,
    get_or-set_self c.slots h s' free,
    get_or-set_ne c.slots h j s' free,
    length-set c.slots h s',
  )

  pub put_slot-IsTable :
      (s' : Slot) → IsTable c → is_free s ≡ false → is_free s' ≡ false → IsTable (put_slot c h s')
  unfolding put_slot
  put_slot-IsTable s' v f f' = record {
    nonempty = ground (arith, v.nonempty, length-set c.slots h s');
    unused = ground (arith, l, get_or-set_ne c.slots h 0 s' free, v.unused);
    vacancies =
        λ j. ground (arith, l, v.vacancies j, vacant-set c.slots s' h j, length-set c.slots h s');
  }

  pub put_slot-TrapsListed :
      (s' : Slot) → TrapsListed c → is_trap s' ≡ is_trap s → TrapsListed (put_slot c h s')
  unfolding put_slot
  put_slot-TrapsListed s' t e j =
      ground (arith, l, t j, get_or-set_self c.slots h s' free, get_or-set_ne c.slots h j s' free)

module _ (c : Core) (s : Slot) where
  pub pipes-alloc : (alloc c s).1.pipes ≡ c.pipes
  unfolding alloc alloc_from
  pipes-alloc = ground arith

  pub data_pipes-alloc : (alloc c s).1.data_pipes ≡ c.data_pipes
  unfolding alloc alloc_from
  data_pipes-alloc = ground arith

  length-alloc_from : (l : List ℕ) → length (alloc_from c s l).1.slots ≤ length c.slots + 1
  unfolding alloc_from
  length-alloc_from [] = omega (arith, length-append c.slots (s ∷ []))
  length-alloc_from (h ∷ rest) = omega (arith, length-set c.slots h s)

  -- At most one slot is added.
  pub length-alloc : length (alloc c s).1.slots ≤ length c.slots + 1
  unfolding alloc
  length-alloc = length-alloc_from c.free_list

  pub buffers-alloc : (alloc c s).1.buffers ≡ c.buffers
  unfolding alloc alloc_from
  buffers-alloc = ground arith

  pub traps-alloc : (alloc c s).1.traps ≡ c.traps
  unfolding alloc alloc_from
  traps-alloc = ground arith

  -- A new object other than a trap leaves the list of the traps right.
  pub alloc-TrapsListed :
      Allocated c s (alloc c s) → TrapsListed c → is_trap s ≡ false → TrapsListed (alloc c s).1
  alloc-TrapsListed a t f j = ground (arith, a, a.slot j, t j, traps-alloc)
