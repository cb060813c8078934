-- ===== src/System/DataPipe/Window.antt =====
-- The bytes of a ring from an index on, going round at the capacity.
use native.Mathlib.Nat.{mod-add-mod, mod-eq_of_lt, mod-eq-sub-mod}
use native.Mathlib.Decide.{dec_lt}
use voodoo.Prelude.{
  ℕ, zero, suc, ◌+◌, ◌-◌, ◌%◌, ◌≤◌, ◌<◌, ◌≡◌, ◌≢◌, refl, sym, ap, ap₂, ◌∙◌, List, [], ◌∷◌, ◌++◌,
  arith, length, get_or, set, get_or-set_self, get_or-set_ne,
}

module _ (cap : ℕ) where
  abbrev pub window : List ℕ → ℕ → ℕ → List ℕ
  window buf h zero = []
  window buf h (suc n) = get_or buf h 0 ∷ window buf ((h + 1) % cap) n

  pub length-window : (buf : List ℕ) (h n : ℕ) → length (window buf h n) ≡ n
  length-window buf h zero = refl
  length-window buf h (suc n) = ap suc (length-window buf ((h + 1) % cap) n)

  -- A step from the next index is a longer step from this one.
  pub mod-step : (h k : ℕ) → ((h + 1) % cap + k) % cap ≡ (h + suc k) % cap
  mod-step h k = rw mod-add-mod (ap (λ t. t % cap) (omega arith))

  pub mod_self : (h : ℕ) → h < cap → (h + 0) % cap ≡ h
  mod_self h p = grind arith

  -- Fewer than `cap` steps, but at least one, lead elsewhere.
  pub mod-ne : (h j : ℕ) → h < cap → 0 < j → j < cap → (h + j) % cap ≢ h
  mod-ne h j p q r = elim (dec_lt (h + j) cap) [
    | yes s ↦ omega (arith, mod-eq_of_lt s)
    | no s ↦ omega (
      arith,
      mod-eq-sub-mod {n = h + j} {m = cap} (omega arith),
      mod-eq_of_lt {n = h + j - cap} {m = cap} (omega arith),
    )
  ]

  -- A window of `m + n` bytes is one of `m` and the one of `n` behind it.
  pub window-+ :
      (buf : List ℕ) (h m n : ℕ)
      → h < cap
      → window buf h (m + n) ≡ window buf h m ++ window buf ((h + m) % cap) n
  window-+ buf h zero n p = ap₂ (window buf) (sym (mod_self h p)) (omega arith)
  window-+ buf h (suc m) n p = rw (← mod-step h m) (
      ap (window buf h) {x = suc m + n} {y = suc (m + n)} (omega arith)
      ∙ ap (◌∷◌ (get_or buf h 0)) (window-+ buf ((h + 1) % cap) m n (omega arith)))

  -- A write `j` steps on is outside the first `n ≤ j` bytes.
  pub window-set :
      (buf : List ℕ) (v h n j : ℕ)
      → h < cap
      → n ≤ j
      → j < cap
      → window (set buf ((h + j) % cap) v) h n ≡ window buf h n
  window-set buf v h zero j p q r = refl
  window-set buf v h (suc n) zero p q r = absurd (omega arith)
  window-set buf v h (suc n) (suc j) p q r =
      ap₂ ◌∷◌ (get_or-set_ne buf ((h + suc j) % cap) h v 0 (mod-ne h (suc j) p (omega arith) r)) (
        ap (λ i. window (set buf i v) ((h + 1) % cap) n) (sym (mod-step h j))
        ∙ window-set buf v ((h + 1) % cap) n j (omega arith) (omega arith) (omega arith))

  -- A byte stored just behind a window joins it.
  pub window-store :
      (buf : List ℕ) (v h n : ℕ)
      → length buf ≡ cap
      → h < cap
      → n < cap
      → window (set buf ((h + n) % cap) v) h (n + 1) ≡ window buf h n ++ v ∷ []
  window-store buf v h n l p q =
      window-+ (set buf ((h + n) % cap) v) h n 1 p
      ∙ ap₂ ◌++◌ (window-set buf v h n n p (omega arith) q)
          (ap (λ x. x ∷ []) (get_or-set_self buf ((h + n) % cap) v 0 (omega arith)))
