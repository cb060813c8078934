-- ===== src/Gating/Clauses.antt =====
-- What the clauses `EnableIf` and `EnableIfNot` ask of the features, and the greatest version.
use voodoo.Prelude.{
  ℕ, ◌≤◌, ◌≡◌, refl, inl, inr, List, [], ◌∷◌, true, false, not, ◌||◌, ◌==◌, ltb, if◌then◌else◌,
  exists, All, is_empty, arith, Bool-cases,
}
use voodoo.Prelude.Text.{Bytes, mem_text}
use voodoo.Ast.{Mode, k_none, k_any, k_all, EnableIf}
use voodoo.Gating.{some_enabled, all_enabled, clause_matches, is_decl_enabled, max_version}

module _ (enabled : List Bytes) where
  -- The flags of an `EnableIf`: of a list with `|` one is among the features, of a list with `&`
  -- there is one and each is.
  abbrev pub MeetsFlags : Mode → List Bytes → Type 0
  MeetsFlags k_none flags = Unit
  MeetsFlags k_any flags = exists (λ f. mem_text f enabled) flags ≡ true
  MeetsFlags k_all flags = (is_empty flags ≡ false) × All (λ f. mem_text f enabled ≡ true) flags

  -- Those of an `EnableIfNot`: of a list with `|` none is among the features, of a list with `&` one
  -- is not, or there is none.
  abbrev pub MissesFlags : Mode → List Bytes → Type 0
  MissesFlags k_none flags = Unit
  MissesFlags k_any flags = All (λ f. mem_text f enabled ≡ false) flags
  MissesFlags k_all flags = (is_empty flags || exists (λ f. not (mem_text f enabled)) flags) ≡ true

  -- The features meet the first clause and miss the second.
  abbrev pub Kept : EnableIf → Type 0
  Kept spec =
      MeetsFlags spec.enable_if.mode spec.enable_if.flags
      × MissesFlags spec.enable_if_not.mode spec.enable_if_not.flags

  some_enabled-exists :
      (flags : List Bytes) → some_enabled enabled flags ≡ exists (λ f. mem_text f enabled) flags
  some_enabled-exists [] = refl
  some_enabled-exists (f ∷ flags) = ground (arith, some_enabled-exists flags)

  all_enabled-exists :
      (flags : List Bytes)
      → all_enabled enabled flags ≡ not (exists (λ f. not (mem_text f enabled)) flags)
  all_enabled-exists [] = refl
  all_enabled-exists (f ∷ flags) = ground (arith, all_enabled-exists flags)

  none_enabled :
      (flags : List Bytes)
      → exists (λ f. mem_text f enabled) flags ≡ false
      → All (λ f. mem_text f enabled ≡ false) flags
  none_enabled [] e = tt
  none_enabled (f ∷ flags) e = (ground (arith, e), none_enabled flags (ground (arith, e)))

  enabled_none :
      (flags : List Bytes)
      → All (λ f. mem_text f enabled ≡ false) flags
      → exists (λ f. mem_text f enabled) flags ≡ false
  enabled_none [] a = refl
  enabled_none (f ∷ flags) a = ground (arith, a.0, enabled_none flags a.1)

  each_enabled :
      (flags : List Bytes)
      → exists (λ f. not (mem_text f enabled)) flags ≡ false
      → All (λ f. mem_text f enabled ≡ true) flags
  each_enabled [] e = tt
  each_enabled (f ∷ flags) e = (ground (arith, e), each_enabled flags (ground (arith, e)))

  enabled_each :
      (flags : List Bytes)
      → All (λ f. mem_text f enabled ≡ true) flags
      → exists (λ f. not (mem_text f enabled)) flags ≡ false
  enabled_each [] a = refl
  enabled_each (f ∷ flags) a = ground (arith, a.0, enabled_each flags a.1)

  matches-Meets :
      (mode : Mode) (flags : List Bytes)
      → clause_matches (record { mode = mode; flags = flags }) enabled false ≡ true
      → MeetsFlags mode flags
  matches-Meets k_none flags e = tt
  matches-Meets k_any flags e = ground (arith, e, some_enabled-exists flags)
  matches-Meets k_all flags e =
      (ground (arith, e), each_enabled flags (ground (arith, e, all_enabled-exists flags)))

  Meets-matches :
      (mode : Mode) (flags : List Bytes)
      → MeetsFlags mode flags
      → clause_matches (record { mode = mode; flags = flags }) enabled false ≡ true
  Meets-matches k_none flags h = refl
  Meets-matches k_any flags h = ground (arith, h, some_enabled-exists flags)
  Meets-matches k_all flags h =
      ground (arith, h.0, enabled_each flags h.1, all_enabled-exists flags)

  matches-Misses :
      (mode : Mode) (flags : List Bytes)
      → clause_matches (record { mode = mode; flags = flags }) enabled true ≡ true
      → MissesFlags mode flags
  matches-Misses k_none flags e = tt
  matches-Misses k_any flags e = none_enabled flags (ground (arith, e, some_enabled-exists flags))
  matches-Misses k_all flags e = ground (arith, e, all_enabled-exists flags)

  Misses-matches :
      (mode : Mode) (flags : List Bytes)
      → MissesFlags mode flags
      → clause_matches (record { mode = mode; flags = flags }) enabled true ≡ true
  Misses-matches k_none flags h = refl
  Misses-matches k_any flags h = ground (arith, enabled_none flags h, some_enabled-exists flags)
  Misses-matches k_all flags h = ground (arith, h, all_enabled-exists flags)

  -- IsDeclEnabled is true of just these.
  pub enabled-Kept : (spec : EnableIf) → is_decl_enabled spec enabled ≡ true → Kept spec
  unfolding is_decl_enabled
  enabled-Kept spec e = (
    matches-Meets spec.enable_if.mode spec.enable_if.flags (ground (arith, e)),
    matches-Misses spec.enable_if_not.mode spec.enable_if_not.flags (ground (arith, e)),
  )

  pub Kept-enabled : (spec : EnableIf) → Kept spec → is_decl_enabled spec enabled ≡ true
  unfolding is_decl_enabled
  Kept-enabled spec h = ground (
    arith,
    Meets-matches spec.enable_if.mode spec.enable_if.flags h.0,
    Misses-matches spec.enable_if_not.mode spec.enable_if_not.flags h.1,
  )

-- No version is above it, and it is 0 or one of them.
abbrev pub IsGreatest : ℕ → List ℕ → Type 0
IsGreatest version vs =
    All (λ v. v ≤ version) vs × ((version == 0 || exists (λ v. v == version) vs) ≡ true)

max_version-above : (acc : ℕ) (vs : List ℕ) → acc ≤ max_version acc vs
max_version-above acc [] = omega arith
max_version-above acc (v ∷ vs) = ground (arith, max_version-above (if ltb acc v then v else acc) vs)

max_version-All : (acc : ℕ) (vs : List ℕ) → All (λ v. v ≤ max_version acc vs) vs
max_version-All acc [] = tt
max_version-All acc (v ∷ vs) = (
  ground (arith, max_version-above (if ltb acc v then v else acc) vs),
  max_version-All (if ltb acc v then v else acc) vs,
)

max_version-one :
    (acc : ℕ) (vs : List ℕ)
    → (max_version acc vs == acc || exists (λ v. v == max_version acc vs) vs) ≡ true
max_version-one acc [] = ground arith
max_version-one acc (v ∷ vs) = ground (arith, max_version-one (if ltb acc v then v else acc) vs)

pub max_version-IsGreatest : (vs : List ℕ) → IsGreatest (max_version 0 vs) vs
max_version-IsGreatest vs = (max_version-All 0 vs, max_version-one 0 vs)

exists_le : (n k : ℕ) (vs : List ℕ) → All (λ v. v ≤ k) vs → exists (λ v. v == n) vs ≡ true → n ≤ k
exists_le n k [] a e = cc
exists_le n k (v ∷ vs) a e = elim (Bool-cases (v == n)) [
  | inl h ↦ ground (arith, a.0, h)
  | inr h ↦ exists_le n k vs a.1 (ground (arith, e, h))
]

greatest-le : (n k : ℕ) (vs : List ℕ) → IsGreatest n vs → All (λ v. v ≤ k) vs → n ≤ k
greatest-le n k vs g a = elim (Bool-cases (n == 0)) [
  | inl h ↦ ground (arith, h)
  | inr h ↦ exists_le n k vs a (ground (arith, h, g.1))
]

-- There is one such number only.
pub IsGreatest-max_version : (n : ℕ) (vs : List ℕ) → IsGreatest n vs → n ≡ max_version 0 vs
IsGreatest-max_version n vs g =
    let m = max_version-IsGreatest vs in
    omega
      (arith, greatest-le n (max_version 0 vs) vs g m.0, greatest-le (max_version 0 vs) n vs m g.0)
