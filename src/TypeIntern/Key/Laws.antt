-- ===== src/TypeIntern/Key/Laws.antt =====
-- What the keys tell apart, and what they do not.
use voodoo.Prelude.{
  ℕ, ◌<◌, suc, zero, ◌+◌, ◌-◌, ◌*◌, ◌/◌, ◌%◌, ◌^◌, ◌≡◌, refl, sym, ap, ◌∙◌, [], ◌∷◌, arith, ◌⊎◌,
  inl, inr, ◌==◌, ==_eq, Bool-cases, if-true, if-false,
}
use voodoo.Prelude.Text.{Bytes, emit, to_string}
use voodoo.Ast.{SpecData, SpecPtr, spec, k_struct_ref, k_union_ref}
use voodoo.TypeIntern.Key.{base_key, type_key}

-- The number that a text of digits stands for, read after `n`.
abbrev pub read_digits : ℕ → Bytes → ℕ
read_digits n [] = n
read_digits n (d ∷ ds) = read_digits (n * 10 + (d - b'0')) ds

abbrev tens : ℕ → ℕ
tens zero = 1
tens (suc k) = 10 * tens k

read_digits-emit :
    (k n : ℕ) (out : Bytes) → n < tens k → read_digits 0 (emit k n out) ≡ read_digits n out
read_digits-emit zero n out h = ap (λ x. read_digits x out) (omega (arith, h))
read_digits-emit (suc k) n out h = elim (Bool-cases (n == 0)) [
  | inl e ↦ ap (read_digits 0) (if-true _ _ e) ∙ ap (λ x. read_digits x out) (sym (==_eq n 0 e))
  | inr e ↦
      ap (read_digits 0) (if-false _ _ e)
      ∙ read_digits-emit k (n / 10) ((b'0' + n % 10) ∷ out) (omega arith)
      ∙ ap (λ x. read_digits x out) (omega arith)
]

-- The size that a fixed array's key shows reads back as that size: no `int` has too many digits.
pub read_digits-to_string : (n : ℕ) → n < 2 ^ 31 → read_digits 0 (to_string n) ≡ n
unfolding to_string
read_digits-to_string n h = read_digits-emit 10 n [] (omega arith)

-- Two struct types, or two union types, that differ only in the interface that they are nested in
-- have one key, whatever the interfaces are.
pub type_key_container :
    (t : SpecData) (container : Bytes) (element key : SpecPtr) (ns : Bytes)
    → (t.kind ≡ k_struct_ref) ⊎ (t.kind ≡ k_union_ref)
    → type_key (spec (record t { owner_container = container }) element key) ns
      ≡ type_key (spec t element key) ns
unfolding type_key base_key
type_key_container t container element key ns (inl e) = rw (e, type_key) refl
type_key_container t container element key ns (inr e) = rw (e, type_key) refl
