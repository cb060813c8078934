-- ===== src/TypeIntern/Table/Position.antt =====
-- Where a key stands in a list of keys, and how that changes when one is added.
use voodoo.Prelude.{
  ℕ, suc, ◌+◌, ◌-◌, ◌<◌, ◌≤◌, ◌≡◌, refl, sym, ap, ap₂, ◌∙◌, inl, inr, List, [], ◌∷◌, ◌++◌, Bool,
  false, Option, none, some, if◌then◌else◌, length, get_or, arith, Bool-cases, if-true, if-false,
}
use voodoo.Prelude.Text.{Bytes, same_text, same_text_eq}

-- Where a key stands in a list of keys, counted from `i`.
abbrev pub position : Bytes → List Bytes → ℕ → Option ℕ
position k [] i = none
position k (x ∷ xs) i = let rest = position k xs (suc i) in if same_text x k then some i else rest

-- What is known of a key that is found: where it stands.
pub record Stands (k : Bytes) (xs : List Bytes) (i p : ℕ) : Type 0 where
  pub above : i ≤ p
  pub below : p < i + length xs
  pub there : get_or xs (p - i) [] ≡ k

get_or_cons :
    (x : Bytes) (xs : List Bytes) (i p : ℕ)
    → suc i ≤ p
    → get_or (x ∷ xs) (p - i) [] ≡ get_or xs (p - suc i) []
get_or_cons x xs i p h = ap (λ n. get_or (x ∷ xs) n []) split
  where
    split : p - i ≡ suc (p - suc i)
    split = omega arith

Stands-cons :
    (k x : Bytes) (xs : List Bytes) (i p : ℕ) → Stands k xs (suc i) p → Stands k (x ∷ xs) i p
Stands-cons k x xs i p s = record {
  above = omega (arith, s.above);
  below = omega (arith, s.below);
  there = get_or_cons x xs i p s.above ∙ s.there;
}

pub position-Stands :
    (k : Bytes) (xs : List Bytes) (i p : ℕ) → position k xs i ≡ some p → Stands k xs i p
position-Stands k [] i p e = cc
position-Stands k (x ∷ xs) i p e = elim (Bool-cases (same_text x k)) [
  | inl h ↦
      let q : i ≡ p = ground (arith, h, e) in
      let first : p - i ≡ 0 = omega (arith, q) in
      record {
        above = omega (arith, q);
        below = omega (arith, q);
        there = ap (λ n. get_or (x ∷ xs) n []) first ∙ same_text_eq x k h;
      }
  | inr h ↦ Stands-cons k x xs i p (position-Stands k xs (suc i) p (sym (if-false _ _ h) ∙ e))
]

-- One key more at the end.
abbrev pub or_last : Option ℕ → Bool → ℕ → Option ℕ
or_last (some p) b n = some p
or_last none b n = if b then some n else none

pub position-append :
    (k x : Bytes) (xs : List Bytes) (i : ℕ)
    → position k (xs ++ x ∷ []) i ≡ or_last (position k xs i) (same_text x k) (i + length xs)
position-append k x [] i = ap (λ n. if same_text x k then some n else none) (omega arith)
position-append k x (y ∷ xs) i = elim (Bool-cases (same_text y k)) [
  | inl h ↦
      if-true _ _ h
      ∙ ap (λ o. or_last o (same_text x k) (i + suc (length xs))) (sym (if-true _ _ h))
  | inr h ↦
      if-false _ _ h
      ∙ position-append k x xs (suc i)
      ∙ ap₂ (λ o n. or_last o (same_text x k) n) (sym (if-false _ _ h)) (omega arith)
]

pub or_last-false : (o : Option ℕ) (b : Bool) (n : ℕ) → b ≡ false → or_last o b n ≡ o
or_last-false none b n h = if-false _ _ h
or_last-false (some p) b n h = refl
