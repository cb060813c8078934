-- ===== src/Lexer/RoundTrip.antt =====
-- Tokenize on printed tokens.
pub mod Literals
use voodoo.Prelude.{
  ℕ, zero, suc, ◌+◌, ◌≤◌, ◌<◌, ◌≡◌, refl, sym, ap, ap₂, ◌∙◌, List, [], ◌∷◌, ◌++◌, append_assoc,
  append-nil, Bool, true, false, not, ◌&&◌, ◌||◌, Option, none, some, arith, ◌==◌, if◌then◌else◌,
  length, length-append, is_empty, Bool-cases, inl, inr, if-true, if-false,
}
use voodoo.Prelude.Text.{Bytes}
use voodoo.Lexer.Types.{TokenType, k_name, k_number, k_hex_number, k_float_number, k_end}
use voodoo.Lexer.Chars.{
  is_digit, is_xdigit, is_name_start, is_name_cont, is_alpha, is_space, next_is, next_eq, span,
  tail,
}
use voodoo.Lexer.Numbers.{literal, fraction, exponent, hex_number, decimal_number, number}
use voodoo.Lexer.Strings.{string_value, string_loop, string_step, escape, char, closed}
use voodoo.Lexer.Tokenize.{
  push, skip, tokens, lex_step, lex_loop, tokenize, push_punctuation, punctuation, push_literal,
  push_string, push_name, token_at, cons_token,
}
use voodoo.Lexer.Printer.{
  all, quote, Lexeme, name, decimal, hex, float, string, arrow, punct, spelled, token_of, IsLexeme,
  AllLexemes, print, tokens_of,
}
use voodoo.Lexer.RoundTrip.Literals.{
  span-append, hex_number-print, decimal_number-print, float-print, string_loop-quote, length-quote,
}

-- Each kind of lexeme reaches its branch of the loop.
lex_step-name :
    (m line c : ℕ) (s : Bytes)
    → is_name_start c ≡ true
    → lex_step m line c s ≡ push_name line (span is_name_cont (c ∷ s))
unfolding lex_step
lex_step-name m line c s h = ground arith

lex_step-number :
    (m line c : ℕ) (s : Bytes)
    → is_digit c ≡ true
    → lex_step m line c s ≡ push_literal line (number c s)
unfolding lex_step
lex_step-number m line c s h = ground arith

lex_step-string :
    (m line : ℕ) (s : Bytes)
    → lex_step m line b'"' s ≡ push_string line (string_loop m (suc (length s)) [] s)
unfolding lex_step
lex_step-string m line s = refl

-- A punctuation character is in no other class.
abbrev plain : ℕ → Bool
plain c =
    c == b'\n' || (is_space c || (c == b'/' || (is_name_start c || (is_digit c || c == b'"'))))

punctuation-plain : (c : ℕ) (type : TokenType) → punctuation c ≡ some type → plain c ≡ false
unfolding punctuation
punctuation-plain c type h = ground arith

lex_step-plain :
    (m line c : ℕ) (s : Bytes)
    → plain c ≡ false
    → next_is is_digit s ≡ false
    → next_eq b'>' s ≡ false
    → lex_step m line c s ≡ push_punctuation line c s
unfolding lex_step
lex_step-plain m line c s h j k = ground arith

push_punctuation-some :
    (line c : ℕ) (s : Bytes) (type : TokenType)
    → punctuation c ≡ some type
    → push_punctuation line c s ≡ push (token_at line type []) s
unfolding push_punctuation
push_punctuation-some line c s type h = rw (h, push_punctuation) refl

number-decimal :
    (c : ℕ) (s rest : Bytes)
    → all is_digit s ≡ true
    → number c (s ++ b' ' ∷ rest) ≡ decimal_number (c ∷ s ++ b' ' ∷ rest)
unfolding number
number-decimal c [] rest h = ground arith
number-decimal c (d ∷ s) rest h = ground arith

number-float :
    (c : ℕ) (s rest : Bytes)
    → all is_digit s ≡ true
    → number c (s ++ b'.' ∷ rest) ≡ decimal_number (c ∷ s ++ b'.' ∷ rest)
unfolding number
number-float c [] rest h = ground arith
number-float c (d ∷ s) rest h = ground arith

number-hex :
    (c : ℕ) (s rest : Bytes)
    → number b'0' (b'x' ∷ c ∷ s ++ rest) ≡ hex_number b'0' (b'x' ∷ c ∷ s ++ rest)
unfolding number
number-hex c s rest = refl

-- A lexeme with a blank behind it is one round of the loop.
abbrev Reads : ℕ → ℕ → Lexeme → Bytes → Bytes → Type 0
Reads m line t [] rest = ⊥
Reads m line t (c ∷ s) rest = lex_step m line c s ≡ push (token_of line t) rest

lex_step-spelled :
    (m line : ℕ) (t : Lexeme) (rest : Bytes)
    → IsLexeme t
    → Reads m line t (spelled t ++ b' ' ∷ rest) (b' ' ∷ rest)
lex_step-spelled m line (name c s) rest v =
    lex_step-name m line c (s ++ b' ' ∷ rest) v.0
    ∙ ap (push_name line) (span-append is_name_cont (c ∷ s) b' ' rest (ground (arith, v)) refl)
lex_step-spelled m line (decimal c s) rest v =
    lex_step-number m line c (s ++ b' ' ∷ rest) v.0
    ∙ ap (push_literal line) (
        number-decimal c s rest v.1
        ∙ decimal_number-print c s rest (ground (arith, v)) (ground (arith, v)))
lex_step-spelled m line (hex c s) rest v =
    lex_step-number m line b'0' (b'x' ∷ c ∷ s ++ b' ' ∷ rest) refl
    ∙ ap (push_literal line) (number-hex c s (b' ' ∷ rest) ∙ hex_number-print b'0' c s rest v.0 v.1)
lex_step-spelled m line (float c s d t) rest v =
    ap (lex_step m line c) (append_assoc s (b'.' ∷ d ∷ t) (b' ' ∷ rest))
    ∙ lex_step-number m line c (s ++ (b'.' ∷ d ∷ t ++ b' ' ∷ rest)) v.0
    ∙ ap (push_literal line) (
        number-float c s (d ∷ t ++ b' ' ∷ rest) v.1
        ∙ float-print c s d t rest (ground (arith, v)) (ground (arith, v)))
lex_step-spelled m line (string s) rest v =
    ap (lex_step m line b'"') (append_assoc (quote s) (b'"' ∷ []) (b' ' ∷ rest))
    ∙ lex_step-string m line (quote s ++ b'"' ∷ b' ' ∷ rest)
    ∙ ap (push_string line) (
        string_loop-quote m (suc (length (quote s ++ b'"' ∷ b' ' ∷ rest))) [] s (b' ' ∷ rest) v
          (omega (arith, length-append (quote s) (b'"' ∷ b' ' ∷ rest), length-quote s)))
lex_step-spelled m line arrow rest v = unfold lex_step in refl
lex_step-spelled m line (punct type c) rest v =
    lex_step-plain m line c (b' ' ∷ rest) (punctuation-plain c type v) refl refl
    ∙ push_punctuation-some line c (b' ' ∷ rest) type v

-- The round of a lexeme and the one of the blank behind it.
lex_loop-Reads :
    (m fuel line : ℕ) (t : Lexeme) (x rest : Bytes)
    → Reads m line t x (b' ' ∷ rest)
    → lex_loop m (suc (suc fuel)) line x ≡ cons_token (token_of line t) (lex_loop m fuel line rest)
unfolding lex_loop
lex_loop-Reads m fuel line t [] rest h = absurd h
lex_loop-Reads m fuel line t (c ∷ s) rest h = rw (h, lex_loop) (unfold lex_step in refl)

length-spelled_pos : (t : Lexeme) → 0 < length (spelled t)
length-spelled_pos (name c s) = omega arith
length-spelled_pos (decimal c s) = omega arith
length-spelled_pos (hex c s) = omega arith
length-spelled_pos (float c s d t) = omega arith
length-spelled_pos (string s) = omega arith
length-spelled_pos arrow = omega arith
length-spelled_pos (punct type c) = omega arith

lex_loop-print :
    (m fuel line : ℕ) (ts : List Lexeme)
    → AllLexemes ts
    → length (print ts) < fuel
    → lex_loop m fuel line (print ts) ≡ tokens (tokens_of line ts)
unfolding lex_loop
lex_loop-print m zero line ts v h = absurd (omega arith)
lex_loop-print m (suc fuel) line [] v h = refl
lex_loop-print m (suc zero) line (t ∷ ts) v h =
    absurd (omega (arith, length-append (spelled t) (b' ' ∷ print ts), length-spelled_pos t))
lex_loop-print m (suc (suc fuel)) line (t ∷ ts) v h =
    lex_loop-Reads m fuel line t (spelled t ++ b' ' ∷ print ts) (print ts)
      (lex_step-spelled m line t (print ts) v.0)
    ∙ ap (cons_token (token_of line t)) (
        lex_loop-print m fuel line ts v.1
          (omega (arith, length-append (spelled t) (b' ' ∷ print ts), length-spelled_pos t)))

-- Any lexemes, written out with a blank behind each, are tokenized back to their tokens, all on
-- line 1, with the end token behind them: names, decimal numbers, hexadecimal numbers, floats of the
-- form DIGITS.DIGITS, strings without a newline, arrows and punctuation.
pub tokenize-print :
    (long_max : ℕ) (ts : List Lexeme)
    → AllLexemes ts
    → tokenize long_max (print ts) ≡ tokens (tokens_of 1 ts)
unfolding tokenize
tokenize-print m ts v = lex_loop-print m (suc (length (print ts))) 1 ts v (omega arith)
