-- ===== src/System/Table/Validity.antt =====
-- The invariant of the handle table: `free_list` holds each free slot once and no other, and
-- `traps` each live trap once and no other.
use voodoo.Prelude.{
  ℕ, ◌<◌, ◌≡◌, ◌≢◌, refl, List, [], ◌∷◌, ◌++◌, Bool, true, false, ◌&&◌, not, arith, ltb, ◌==◌,
  if◌then◌else◌, indicator, length, get_or, set, count, get_or-set_self, get_or-set_ne, length-set,
  length-append, get_or-append_left, get_or-append_last, get_or_above,
}
use voodoo.System.Types.{
  Core, Slot, free, message_pipe, message, trap, data_pipe_producer, data_pipe_consumer,
  shared_buffer, platform,
}

abbrev pub is_free : Slot → Bool
is_free free = true
is_free _ = false

abbrev pub is_trap : Slot → Bool
is_trap (trap t) = true
is_trap _ = false

-- Whether `h` is the number of a slot that `Alloc` may hand out again.
abbrev pub vacant : List Slot → ℕ → Bool
vacant slots h = not (h == 0) && (ltb h (length slots) && is_free (get_or slots h free))

-- `free_list` holds each free slot but the unused one exactly once, and nothing else.
pub record IsTable (c : Core) : Type 0 where
  pub nonempty : 0 < length c.slots
  pub unused : get_or c.slots 0 free ≡ free
  pub vacancies : (h : ℕ) → count h c.free_list ≡ indicator (vacant c.slots h)

-- `traps` holds each live trap exactly once, and nothing else.
abbrev pub TrapsListed : Core → Type 0
TrapsListed c = (h : ℕ) → count h c.traps ≡ indicator (is_trap (get_or c.slots h free))

is_free-eq : (s : Slot) → is_free s ≡ true → s ≡ free
is_free-eq free e = refl
is_free-eq (message_pipe x) e = cc
is_free-eq (message x) e = cc
is_free-eq (trap x) e = cc
is_free-eq (data_pipe_producer x) e = cc
is_free-eq (data_pipe_consumer x) e = cc
is_free-eq (shared_buffer x) e = cc
is_free-eq (platform x) e = cc

-- The head of the free list is in range and free.
pub head_vacant :
    (slots : List Slot) (h : ℕ) (rest : List ℕ)
    → count h (h ∷ rest) ≡ indicator (vacant slots h)
    → (h ≢ 0) × (h < length slots) × (get_or slots h free ≡ free)
head_vacant slots h rest e = ground (arith, is_free-eq (get_or slots h free))

module _ (slots : List Slot) (s : Slot) where
  -- Filling a slot makes it not vacant.
  pub vacant-set :
      (h j : ℕ)
      → h < length slots
      → vacant (set slots h s) j ≡ (if j == h then not (h == 0) && is_free s else vacant slots j)
  vacant-set h j p =
      ground (
        arith,
        length-set slots h s,
        get_or-set_self slots h s free,
        get_or-set_ne slots h j s free,
      )

  pub vacant-append :
      (j : ℕ)
      → 0 < length slots
      → vacant (slots ++ s ∷ []) j ≡ (if j == length slots then is_free s else vacant slots j)
  vacant-append j p = ground (
    arith,
    length-append slots (s ∷ []),
    get_or-append_last slots s free,
    get_or-append_left slots (s ∷ []) j free,
  )

  pub get_or-append :
      (j : ℕ)
      → get_or (slots ++ s ∷ []) j free ≡ (if j == length slots then s else get_or slots j free)
  get_or-append j = ground (
    arith,
    length-append slots (s ∷ []),
    get_or-append_last slots s free,
    get_or-append_left slots (s ∷ []) j free,
    get_or_above slots j free,
    get_or_above (slots ++ s ∷ []) j free,
  )
