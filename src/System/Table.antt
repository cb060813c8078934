-- ===== src/System/Table.antt =====
-- The handle table of `Core`: Alloc, Lookup and Free.
pub mod Validity
pub mod Alloc
pub mod Free
pub mod Sound
use voodoo.Prelude.{
  ℕ, ◌%◌, ◌^◌, ◌≡◌, refl, List, [], ◌∷◌, ◌++◌, ◌||◌, leb, ◌==◌, if◌then◌else◌, length, get_or, set,
}
use voodoo.System.Types.{Core, Slot, free}

-- A handle that is null, out of range or free reads as `free`, which stands for `nullptr`.
unfoldable pub lookup : Core → ℕ → Slot
lookup c h = if h == 0 || leb (length c.slots) h then free else get_or c.slots h free

alloc_from : Core → Slot → List ℕ → ℕ × Core
alloc_from c s [] = (length c.slots % 2 ^ 32, record c { slots = c.slots ++ s ∷ [] })
alloc_from c s (h ∷ rest) = (h, record c { slots = set c.slots h s; free_list = rest })

unfoldable pub alloc : Core → Slot → ℕ × Core
unfolding alloc_from
alloc c s = alloc_from c s c.free_list

unfoldable pub free_handle : Core → ℕ → Core
free_handle c h =
    if h == 0 || leb (length c.slots) h
    then c
    else record c { slots = set c.slots h free; free_list = h ∷ c.free_list }

-- What a pointer into the slot of a live handle writes through.
unfoldable pub put_slot : Core → ℕ → Slot → Core
put_slot c h s = record c { slots = set c.slots h s }
