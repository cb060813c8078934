-- ===== src/Lexer/Ends/Literals.antt =====
-- What the literals of Tokenize leave of the input.
use voodoo.Prelude.{ℕ, zero, suc, ◌≤◌, ◌<◌, ◌≡◌, [], ◌∷◌, ◌++◌, Bool, true, arith, length}
use voodoo.Prelude.Text.{Bytes}
use voodoo.Lexer.Chars.{is_digit, is_xdigit, span}
use voodoo.Lexer.Numbers.{
  Literal, literal, bad_literal, fraction, exponent, exponent_digits, hex_number, decimal_number,
  number, dot_number,
}
use voodoo.Lexer.Strings.{
  StringStep, closed, char, unterminated, code_too_large, escape, string_step, StringResult,
  string_value, string_unterminated, string_out_of_range, string_out_of_fuel, string_loop,
}

pub span-le : (p : ℕ → Bool) (s : Bytes) → length (span p s).1 ≤ length s
unfolding span
span-le p [] = omega arith
span-le p (c ∷ s) = ground (arith, span-le p s)

-- Where the first byte passes, it is consumed.
pub span-lt : (p : ℕ → Bool) (c : ℕ) (s : Bytes) → p c ≡ true → length (span p (c ∷ s)).1 ≤ length s
unfolding span
span-lt p c s h = ground (arith, span-le p s)

fraction-le : (s : Bytes) → length (fraction s).1 ≤ length s
unfolding fraction
fraction-le [] = omega arith
fraction-le (c ∷ s) = ground (arith, span-le is_digit s)

exponent_digits-le :
    (front s whole : Bytes)
    → length s ≤ length whole
    → length (exponent_digits front s whole).1 ≤ length whole
unfolding exponent_digits
exponent_digits-le front s whole h = ground (arith, span-le is_digit s)

exponent-le : (s : Bytes) → length (exponent s).1 ≤ length s
unfolding exponent
exponent-le [] = omega arith
exponent-le (e ∷ []) = ground arith
exponent-le (e ∷ c ∷ s) = ground (
  arith,
  exponent_digits-le (e ∷ c ∷ []) s (e ∷ c ∷ s) (omega arith),
  exponent_digits-le (e ∷ []) (c ∷ s) (e ∷ c ∷ s) (omega arith),
)

-- A literal leaves at most `n` bytes.
abbrev pub LeavesLiteral : ℕ → Literal → Type 0
LeavesLiteral n (literal type text rest) = length rest ≤ n
LeavesLiteral n (bad_literal message) = Unit

hex_number-Leaves : (c : ℕ) (s : Bytes) → LeavesLiteral (length s) (hex_number c s)
unfolding hex_number
hex_number-Leaves c [] = tt
hex_number-Leaves c (x ∷ s) = ground (arith, span-le is_xdigit s)

decimal_number-Leaves :
    (c : ℕ) (s : Bytes) → is_digit c ≡ true → LeavesLiteral (length s) (decimal_number (c ∷ s))
unfolding decimal_number
decimal_number-Leaves c s h =
    let s1 : Bytes = (span is_digit (c ∷ s)).1 in
    ground (arith, span-lt is_digit c s h, fraction-le s1, exponent-le (fraction s1).1)

pub number-Leaves : (c : ℕ) (s : Bytes) → is_digit c ≡ true → LeavesLiteral (length s) (number c s)
unfolding number
number-Leaves c s h = ground (arith, hex_number-Leaves c s, decimal_number-Leaves c s h)

pub dot_number-Leaves : (s : Bytes) → LeavesLiteral (length s) (dot_number s)
unfolding dot_number
dot_number-Leaves s = ground (arith, span-le is_digit s, exponent-le (span is_digit s).1)

abbrev LeavesString : ℕ → StringStep → Type 0
LeavesString n (closed rest) = length rest ≤ n
LeavesString n (char b rest) = length rest ≤ n
LeavesString n unterminated = Unit
LeavesString n code_too_large = Unit

escape-Leaves : (m : ℕ) (s : Bytes) → LeavesString (length s) (escape m s)
unfolding escape
escape-Leaves m [] = omega arith
escape-Leaves m (e ∷ s) = ground (arith, span-le is_digit (e ∷ s), span-le is_xdigit s)

string_step-Leaves : (m c : ℕ) (s : Bytes) → LeavesString (length s) (string_step m (c ∷ s))
unfolding string_step
string_step-Leaves m c s = ground (arith, escape-Leaves m s)

abbrev pub LeavesResult : ℕ → StringResult → Type 0
LeavesResult n (string_value v rest) = length rest ≤ n
LeavesResult n string_unterminated = Unit
LeavesResult n string_out_of_range = Unit
LeavesResult n string_out_of_fuel = ⊥

LeavesResult-le : (m n : ℕ) (r : StringResult) → LeavesResult m r → m ≤ n → LeavesResult n r
LeavesResult-le m n (string_value v rest) h k = omega arith
LeavesResult-le m n string_unterminated h k = tt
LeavesResult-le m n string_out_of_range h k = tt
LeavesResult-le m n string_out_of_fuel h k = h

-- What follows one round that leaves at most `n` bytes.
string_next-Leaves :
    (n : ℕ) (value : Bytes) (loop : Bytes → Bytes → StringResult) (step : StringStep)
    → LeavesString n step
    → ((v rest : Bytes) → length rest ≤ n → LeavesResult n (loop v rest))
    → LeavesResult n (elim step [
      | closed rest ↦ string_value value rest
      | char byte rest ↦ loop (value ++ byte ∷ []) rest
      | unterminated ↦ string_unterminated
      | code_too_large ↦ string_out_of_range
    ])
string_next-Leaves n value loop (closed rest) h k = h
string_next-Leaves n value loop (char byte rest) h k = k (value ++ byte ∷ []) rest h
string_next-Leaves n value loop unterminated h k = tt
string_next-Leaves n value loop code_too_large h k = tt

pub string_loop-Leaves :
    (m fuel : ℕ) (value s : Bytes)
    → length s < fuel
    → LeavesResult (length s) (string_loop m fuel value s)
unfolding string_loop
string_loop-Leaves m zero value s h = absurd (omega arith)
string_loop-Leaves m (suc fuel) value [] h = unfold string_step in tt
string_loop-Leaves m (suc fuel) value (c ∷ s) h =
    LeavesResult-le (length s) (suc (length s)) _
      (string_next-Leaves (length s) value (string_loop m fuel) (string_step m (c ∷ s))
        (string_step-Leaves m c s)
        (λ v rest k.
          LeavesResult-le (length rest) (length s) _
            (string_loop-Leaves m fuel v rest (omega arith)) k))
      (omega arith)
