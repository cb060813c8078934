-- ===== src/Lexer/Sentinel.antt =====
-- The end token, on which the parser relies when it looks ahead.
use voodoo.Prelude.{
  ℕ, zero, suc, ◌≡◌, refl, subst, List, [], ◌∷◌, ◌++◌, Bool, true, false, ◌&&◌, Option, none, some,
  arith, ◌==◌, if◌then◌else◌, length,
}
use voodoo.Prelude.Text.{Bytes, codes}
use voodoo.Lexer.Types.{TokenType, Token, LexError, k_end}
use voodoo.Lexer.Chars.{is_space, is_digit, is_name_start, next_is, next_eq, tail}
use voodoo.Lexer.Numbers.{
  Literal, literal, bad_literal, hex_number, decimal_number, number, dot_number,
}
use voodoo.Lexer.Strings.{
  StringResult, string_value, string_unterminated, string_out_of_range, string_out_of_fuel,
  string_loop,
}
use voodoo.Lexer.Tokenize.{
  LexStep, skip, push, lex_error, step_out_of_range, step_out_of_fuel, skip_block, punctuation,
  push_punctuation, push_literal, push_string, lex_step, LexResult, tokens, failed, out_of_range,
  out_of_fuel, cons_token, lex_loop, tokenize, error_at, token_at,
}

abbrev pub is_end : TokenType → Bool
is_end k_end = true
is_end _ = false

-- The last token, and it alone, is the end token.
abbrev pub Ended : List Token → Type 0
Ended [] = ⊥
Ended (t ∷ []) = is_end t.type ≡ true
Ended (t ∷ u ∷ ts) = (is_end t.type ≡ false) × Ended (u ∷ ts)

-- A round pushes no end token.
data Proper : LexStep → Type 0 where
  skips : {line : ℕ} {rest : Bytes} → Proper (skip line rest)
  pushes : {t : Token} {rest : Bytes} → is_end t.type ≡ false → Proper (push t rest)
  fails : {e : LexError} → Proper (lex_error e)
  throws : Proper step_out_of_range
  stops : Proper step_out_of_fuel

Proper-if : (b : Bool) {x y : LexStep} → Proper x → Proper y → Proper (if b then x else y)
Proper-if true f g = f
Proper-if false f g = g

punctuation-Proper : (c : ℕ) (type : TokenType) → punctuation c ≡ some type → is_end type ≡ false
unfolding punctuation
punctuation-Proper c type h = ground arith

push_punctuation-Proper : (line c : ℕ) (s : Bytes) → Proper (push_punctuation line c s)
unfolding push_punctuation
push_punctuation-Proper line c s = go (punctuation c) (punctuation-Proper c)
  where
    go :
        (o : Option TokenType)
        → ((type : TokenType) → o ≡ some type → is_end type ≡ false)
        → Proper (elim o [
          | none ↦ error_at line (codes "unexpected character '" ++ c ∷ codes "'")
          | some type ↦ push (token_at line type []) s
        ])
    go none h = fails
    go (some type) h = pushes (h type refl)

abbrev ProperLiteral : Literal → Type 0
ProperLiteral (literal type text rest) = is_end type ≡ false
ProperLiteral (bad_literal message) = Unit

number-Proper : (c : ℕ) (s : Bytes) → ProperLiteral (number c s)
unfolding number hex_number decimal_number
number-Proper c [] = ground arith
number-Proper c (d ∷ s) = ground arith

push_literal-Proper : (line : ℕ) (l : Literal) → ProperLiteral l → Proper (push_literal line l)
push_literal-Proper line (literal type text rest) h = pushes h
push_literal-Proper line (bad_literal message) h = fails

push_string-Proper : (line : ℕ) (r : StringResult) → Proper (push_string line r)
push_string-Proper line (string_value v rest) = pushes refl
push_string-Proper line string_unterminated = fails
push_string-Proper line string_out_of_range = throws
push_string-Proper line string_out_of_fuel = stops

skip_block-Proper : (line : ℕ) (s : Bytes) → Proper (skip_block line s)
unfolding skip_block
skip_block-Proper line [] = fails
skip_block-Proper line (c ∷ []) = fails
skip_block-Proper line (c ∷ d ∷ s) =
    Proper-if (c == b'*' && d == b'/') skips
      (skip_block-Proper (if c == b'\n' then suc line else line) (d ∷ s))

lex_step-Proper : (m line c : ℕ) (s : Bytes) → Proper (lex_step m line c s)
unfolding lex_step
lex_step-Proper m line c s = Proper-if (c == b'\n') skips (
    Proper-if (is_space c) skips (
      Proper-if (c == b'/' && next_eq b'/' s) skips (
        Proper-if (c == b'/' && next_eq b'*' s) (skip_block-Proper line (tail s)) (
          Proper-if (is_name_start c) (pushes refl) (
            Proper-if (is_digit c) (push_literal-Proper line (number c s) (number-Proper c s)) (
              Proper-if (c == b'.' && next_is is_digit s)
                (push_literal-Proper line (dot_number s) (unfold dot_number in refl))
                (Proper-if (c == b'"')
                  (push_string-Proper line (string_loop m (suc (length s)) [] s))
                  (Proper-if (c == b'=' && next_eq b'>' s) (pushes refl)
                    (push_punctuation-Proper line c s)))))))))

abbrev EndedResult : LexResult → Type 0
EndedResult (tokens ts) = Ended ts
EndedResult _ = Unit {0}

Ended-cons : (t : Token) (ts : List Token) → is_end t.type ≡ false → Ended ts → Ended (t ∷ ts)
Ended-cons t [] h e = absurd e
Ended-cons t (u ∷ ts) h e = (h, e)

cons_token-Ended :
    (t : Token) (r : LexResult)
    → is_end t.type ≡ false
    → EndedResult r
    → EndedResult (cons_token t r)
cons_token-Ended t (tokens ts) h e = Ended-cons t ts h e
cons_token-Ended t (failed x) h e = tt
cons_token-Ended t out_of_range h e = tt
cons_token-Ended t out_of_fuel h e = tt

lex_next-Ended :
    (line : ℕ) (loop : ℕ → Bytes → LexResult) (step : LexStep)
    → Proper step
    → ((l : ℕ) (rest : Bytes) → EndedResult (loop l rest))
    → EndedResult (elim step [
      | skip line' rest ↦ loop line' rest
      | push t rest ↦ cons_token t (loop line rest)
      | lex_error e ↦ failed e
      | step_out_of_range ↦ out_of_range
      | step_out_of_fuel ↦ out_of_fuel
    ])
lex_next-Ended line loop _ (skips {line = l} {rest}) k = k l rest
lex_next-Ended line loop _ (pushes {t} {rest} h) k =
    cons_token-Ended t (loop line rest) h (k line rest)
lex_next-Ended line loop _ fails k = tt
lex_next-Ended line loop _ throws k = tt
lex_next-Ended line loop _ stops k = tt

lex_loop-Ended : (m fuel line : ℕ) (s : Bytes) → EndedResult (lex_loop m fuel line s)
unfolding lex_loop
lex_loop-Ended m zero line s = tt
lex_loop-Ended m (suc fuel) line [] = refl
lex_loop-Ended m (suc fuel) line (c ∷ s) =
    lex_next-Ended line (lex_loop m fuel) (lex_step m line c s) (lex_step-Proper m line c s)
      (λ l rest. lex_loop-Ended m fuel l rest)

-- Where Tokenize returns tokens, the last one is the end token and no other is.
pub tokenize-Ended :
    (long_max : ℕ) (src : Bytes) (ts : List Token) → tokenize long_max src ≡ tokens ts → Ended ts
unfolding tokenize
tokenize-Ended m src ts h = subst EndedResult h (lex_loop-Ended m (suc (length src)) 1 src)
