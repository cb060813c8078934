-- ===== src/Prelude/Text.antt =====
-- Texts: a `std::string` is the list of its bytes.
use Prim.Native.Char.{code}
use Prim.Native.String.{String}
use Prim.Native.Nat.{ℕ, zero, suc, ◌+◌, ◌/◌, ◌%◌}
use mathlib.Core.Bool.{Bool, true, false, ◌&&◌, ◌||◌}
use mathlib.Core.List.{List, [], ◌∷◌}
use mathlib.Core.Option.{Option, none, some}
use mathlib.Core.Path.{◌≡◌, refl, ap₂}
use native.Mathlib.Omega.{arith}
use voodoo.Prelude.Tests.{◌==◌, ==_refl, ==_eq, if◌then◌else◌}

abbrev pub Bytes : Type 0
Bytes = List ℕ

-- The bytes of a literal, which is ASCII.
abbrev pub codes : String → Bytes
codes String.[] = []
codes (String.◌∷◌ c s) = code c ∷ codes s

-- A step of a computation that may fail, and two of them.
abbrev pub map_option {ℓ κ} : {A : Type ℓ} {B : Type κ} → (A → B) → Option A → Option B
map_option f none = none
map_option f (some a) = some (f a)

abbrev pub both {ℓ κ ι} :
    {A : Type ℓ} {B : Type κ} {C : Type ι} → (A → B → C) → Option A → Option B → Option C
both f none b = none
both f (some a) none = none
both f (some a) (some b) = some (f a b)

-- `==` on texts
abbrev pub same_text : Bytes → Bytes → Bool
same_text [] [] = true
same_text (a ∷ s) (b ∷ t) = a == b && same_text s t
same_text [] (b ∷ t) = false
same_text (a ∷ s) [] = false

pub same_text_refl : (s : Bytes) → same_text s s ≡ true
same_text_refl [] = refl
same_text_refl (a ∷ s) = ground (arith, ==_refl a, same_text_refl s)

pub same_text_eq : (s t : Bytes) → same_text s t ≡ true → s ≡ t
same_text_eq [] [] e = refl
same_text_eq (a ∷ s) (b ∷ t) e =
    ap₂ (λ x xs. x ∷ xs) (==_eq a b (ground arith)) (same_text_eq s t (ground arith))
same_text_eq [] (b ∷ t) e = cc
same_text_eq (a ∷ s) [] e = cc

-- Whether a text is in a set of texts.
abbrev pub mem_text : Bytes → List Bytes → Bool
mem_text x [] = false
mem_text x (y ∷ ys) = same_text x y || mem_text x ys

-- The digits of a number in front of a text, at most `fuel` of them.
abbrev pub emit : ℕ → ℕ → Bytes → Bytes
emit zero n out = out
emit (suc fuel) n out =
    let rest = emit fuel (n / 10) ((b'0' + n % 10) ∷ out) in if n == 0 then out else rest

-- `std::to_string` of a positive `int`, which has at most ten digits.
unfoldable pub to_string : ℕ → Bytes
to_string n = emit 10 n []
