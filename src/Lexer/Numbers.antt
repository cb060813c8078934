-- ===== src/Lexer/Numbers.antt =====
-- The number literals of Tokenize.
use voodoo.Prelude.{ℕ, [], ◌∷◌, ◌++◌, Bool, false, not, ◌&&◌, ◌||◌, ◌==◌, is_empty, if◌then◌else◌}
use voodoo.Prelude.Text.{Bytes, codes}
use voodoo.Lexer.Types.{TokenType, k_number, k_hex_number, k_float_number}
use voodoo.Lexer.Chars.{is_digit, is_xdigit, next_is, next_eq, span}

-- A number literal with what is behind it, or the message of a LexError.
pub data Literal : Type 0 where
  literal : (type : TokenType) (text rest : Bytes) → Literal
  bad_literal : (message : Bytes) → Literal

-- The fractional part: taken only if a digit follows the dot.
unfoldable pub fraction : Bytes → Bytes × Bytes
unfolding span
fraction [] = ([], [])
fraction (c ∷ s) =
    let (digits, back) = span is_digit s in
    if c == b'.' && next_is is_digit s then (c ∷ digits, back) else ([], c ∷ s)

-- The digits of an exponent behind `front`, its letter and sign. `whole` is the input before it.
unfoldable pub exponent_digits : Bytes → Bytes → Bytes → Bytes × Bytes
unfolding span
exponent_digits front s whole =
    let (digits, back) = span is_digit s in
    if next_is is_digit s then (front ++ digits, back) else ([], whole)

-- The exponent part: [eE] [+-]? DIGITS.
unfoldable pub exponent : Bytes → Bytes × Bytes
unfolding exponent_digits
exponent [] = ([], [])
exponent (e ∷ s) =
    if e == b'e' || e == b'E'
    then elim s [
      | [] ↦ ([], e ∷ [])
      | c ∷ back ↦
          if c == b'+' || c == b'-'
          then exponent_digits (e ∷ c ∷ []) back (e ∷ c ∷ back)
          else exponent_digits (e ∷ []) (c ∷ back) (e ∷ c ∷ back)
    ]
    else ([], e ∷ s)

-- `digits.size() > 1 && digits[0] == '0'`
abbrev pub is_octal : Bytes → Bool
is_octal [] = false
is_octal (d ∷ ds) = d == b'0' && not (is_empty ds)

unfoldable pub hex_number : ℕ → Bytes → Literal
unfolding span
hex_number c [] = bad_literal []
hex_number c (x ∷ s) =
    let (digits, back) = span is_xdigit s in
    if is_empty digits
    then bad_literal (codes "invalid hex literal (no digits after '0x')")
    else literal k_hex_number (c ∷ x ∷ digits) back

unfoldable pub decimal_number : Bytes → Literal
unfolding span fraction exponent
decimal_number s =
    let (digits, s1) = span is_digit s in
    let (frac, s2) = fraction s1 in
    let (expo, s3) = exponent s2 in
    if not (is_empty frac) || not (is_empty expo)
    then literal k_float_number (digits ++ frac ++ expo) s3
    else if is_octal digits
    then bad_literal (codes "octal values are not allowed")
    else literal k_number digits s3

-- A literal that starts with the digit `c`.
unfoldable pub number : ℕ → Bytes → Literal
unfolding hex_number decimal_number
number c s =
    if c == b'0' && (next_eq b'x' s || next_eq b'X' s)
    then hex_number c s
    else decimal_number (c ∷ s)

-- A float that starts with a dot.
unfoldable pub dot_number : Bytes → Literal
unfolding span exponent
dot_number s =
    let (digits, s1) = span is_digit s in
    let (expo, s2) = exponent s1 in literal k_float_number (b'.' ∷ (digits ++ expo)) s2
