-- ===== src/Lexer/RoundTrip/Literals.antt =====
-- Literals written out are scanned back.
use voodoo.Prelude.{
  ℕ, zero, suc, ◌≤◌, ◌<◌, ◌≡◌, refl, sym, ap, ◌∙◌, [], ◌∷◌, ◌++◌, append_assoc, append-nil, Bool,
  true, false, not, ◌||◌, arith, ◌==◌, if◌then◌else◌, length, is_empty, Bool-cases, inl, inr,
  if-true, if-false,
}
use voodoo.Prelude.Text.{Bytes}
use voodoo.Lexer.Types.{k_number, k_hex_number, k_float_number}
use voodoo.Lexer.Chars.{is_digit, is_xdigit, span}
use voodoo.Lexer.Numbers.{literal, fraction, hex_number, decimal_number}
use voodoo.Lexer.Strings.{string_value, string_loop, string_step, escape, char}
use voodoo.Lexer.Printer.{all, quote}

pub span-append :
    (p : ℕ → Bool) (xs : Bytes) (b : ℕ) (ys : Bytes)
    → all p xs ≡ true
    → p b ≡ false
    → span p (xs ++ b ∷ ys) ≡ (xs, b ∷ ys)
unfolding span
span-append p [] b ys h k = if-false _ _ k
span-append p (x ∷ xs) b ys h k = ground (arith, span-append p xs b ys)

-- A literal followed by a blank.
pub hex_number-print :
    (c d : ℕ) (s rest : Bytes)
    → is_xdigit d ≡ true
    → all is_xdigit s ≡ true
    → hex_number c (b'x' ∷ d ∷ s ++ b' ' ∷ rest)
      ≡ literal k_hex_number (c ∷ b'x' ∷ d ∷ s) (b' ' ∷ rest)
unfolding hex_number
hex_number-print c d s rest h k =
    rw (span-append is_xdigit (d ∷ s) b' ' rest (ground arith) refl) refl

pub decimal_number-print :
    (c : ℕ) (s rest : Bytes)
    → all is_digit (c ∷ s) ≡ true
    → (if c == b'0' then not (is_empty s) else false) ≡ false
    → decimal_number (c ∷ s ++ b' ' ∷ rest) ≡ literal k_number (c ∷ s) (b' ' ∷ rest)
unfolding decimal_number
decimal_number-print c s rest h o =
    rw (span-append is_digit (c ∷ s) b' ' rest h refl) (ground arith)

-- The fractional part, in front of a blank.
fraction-print :
    (d : ℕ) (t rest : Bytes)
    → all is_digit (d ∷ t) ≡ true
    → fraction (b'.' ∷ d ∷ t ++ b' ' ∷ rest) ≡ (b'.' ∷ d ∷ t, b' ' ∷ rest)
unfolding fraction
fraction-print d t rest k = rw (span-append is_digit (d ∷ t) b' ' rest k refl) (ground arith)

pub float-print :
    (c : ℕ) (s : Bytes) (d : ℕ) (t rest : Bytes)
    → all is_digit (c ∷ s) ≡ true
    → all is_digit (d ∷ t) ≡ true
    → decimal_number ((c ∷ s) ++ (b'.' ∷ d ∷ t ++ b' ' ∷ rest))
      ≡ literal k_float_number ((c ∷ s) ++ b'.' ∷ d ∷ t) (b' ' ∷ rest)
unfolding decimal_number
float-print c s d t rest h k =
    rw (span-append is_digit (c ∷ s) b'.' (d ∷ t ++ b' ' ∷ rest) h refl) rw
      (fraction-print d t rest k, append-nil) refl

string_loop-step :
    (m fuel : ℕ) (value s rest : Bytes) (b : ℕ)
    → string_step m s ≡ char b rest
    → string_loop m (suc fuel) value s ≡ string_loop m fuel (value ++ b ∷ []) rest
unfolding string_loop
string_loop-step m fuel value s rest b e = rw (e, string_loop) refl

string_step-plain :
    (m c : ℕ) (s : Bytes)
    → (c == b'"' || c == b'\\') ≡ false
    → (c == b'\n') ≡ false
    → string_step m (c ∷ s) ≡ char c s
unfolding string_step
string_step-plain m c s h k = ground arith

string_step-escaped :
    (m c : ℕ) (s : Bytes)
    → (c == b'"' || c == b'\\') ≡ true
    → string_step m (b'\\' ∷ c ∷ s) ≡ char c s
unfolding string_step escape
string_step-escaped m c s h = if-true _ _ h

-- The loop over a string literal reads back what was quoted.
pub string_loop-quote :
    (m fuel : ℕ) (value s rest : Bytes)
    → all (λ c. not (c == b'\n')) s ≡ true
    → length s < fuel
    → string_loop m fuel value (quote s ++ b'"' ∷ rest) ≡ string_value (value ++ s) rest
unfolding string_loop string_step
string_loop-quote m zero value s rest h k = absurd (omega arith)
string_loop-quote m (suc fuel) value [] rest h k =
    ap (λ v. string_value v rest) (sym (append-nil value))
string_loop-quote m (suc fuel) value (c ∷ s) rest h k =
    let later : string_loop m fuel (value ++ c ∷ []) (quote s ++ b'"' ∷ rest)
        ≡ string_value (value ++ c ∷ s) rest =
      string_loop-quote m fuel (value ++ c ∷ []) s rest (ground arith) (omega arith)
      ∙ ap (λ v. string_value v rest) (append_assoc value (c ∷ []) s) in
    elim (Bool-cases (c == b'"' || c == b'\\')) [
      | inl q ↦
          ap (λ x. string_loop m (suc fuel) value (x ++ b'"' ∷ rest)) (if-true _ _ q)
          ∙ string_loop-step m fuel value (b'\\' ∷ c ∷ (quote s ++ b'"' ∷ rest))
              (quote s ++ b'"' ∷ rest) c (string_step-escaped m c _ q)
          ∙ later
      | inr q ↦
          ap (λ x. string_loop m (suc fuel) value (x ++ b'"' ∷ rest)) (if-false _ _ q)
          ∙ string_loop-step m fuel value (c ∷ (quote s ++ b'"' ∷ rest)) (quote s ++ b'"' ∷ rest) c
              (string_step-plain m c _ q (ground arith))
          ∙ later
    ]

pub length-quote : (s : Bytes) → length s ≤ length (quote s)
length-quote [] = omega arith
length-quote (c ∷ s) = ground (arith, length-quote s)
