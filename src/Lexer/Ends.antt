-- ===== src/Lexer/Ends.antt =====
-- The fuel of the loops of Tokenize against the bytes that a round consumes.
pub mod Literals
use voodoo.Prelude.{
  ℕ, zero, suc, ◌+◌, ◌≤◌, ◌<◌, ◌≡◌, ◌≢◌, refl, sym, ap, ap₂, subst, ◌∙◌, ◌⊎◌, inl, inr, List, [],
  ◌∷◌, ◌++◌, Bool, true, false, ◌&&◌, ◌||◌, not, Option, none, some, arith, ◌==◌, if◌then◌else◌,
  length, is_empty, Bool-cases,
}
use voodoo.Prelude.Text.{Bytes, codes}
use voodoo.Lexer.Types.{TokenType, Token, LexError}
use voodoo.Lexer.Chars.{
  is_digit, is_xdigit, is_name_cont, is_name_start, is_alpha, is_space, next_is, next_eq, span,
  tail,
}
use voodoo.Lexer.Numbers.{
  Literal, literal, bad_literal, fraction, exponent, exponent_digits, hex_number, decimal_number,
  number, dot_number,
}
use voodoo.Lexer.Strings.{
  StringStep, closed, char, unterminated, code_too_large, escape, string_step, char_of_code,
  StringResult, string_value, string_unterminated, string_out_of_range, string_out_of_fuel,
  string_loop,
}
use voodoo.Lexer.Tokenize.{
  LexStep, skip, push, lex_error, step_out_of_range, step_out_of_fuel, skip_line, skip_block,
  punctuation, push_punctuation, push_literal, push_string, push_name, lex_step, LexResult, tokens,
  failed, out_of_range, out_of_fuel, cons_token, lex_loop, tokenize, error_at, token_at,
}
use voodoo.Lexer.Ends.Literals.{
  span-lt, LeavesLiteral, number-Leaves, dot_number-Leaves, LeavesResult, string_loop-Leaves,
}

-- One round of the main loop leaves at most `n` bytes, and does not run out of fuel.
pub data Leaves (n : ℕ) : LexStep → Type 0 where
  skips : {line : ℕ} {rest : Bytes} → length rest ≤ n → Leaves n (skip line rest)
  pushes : {t : Token} {rest : Bytes} → length rest ≤ n → Leaves n (push t rest)
  fails : {e : LexError} → Leaves n (lex_error e)
  throws : Leaves n step_out_of_range

skip_line-le : (s : Bytes) → length (skip_line s) ≤ length s
unfolding skip_line
skip_line-le [] = omega arith
skip_line-le (c ∷ s) = ground (arith, skip_line-le s)

Leaves-le : (m n : ℕ) (r : LexStep) → Leaves m r → m ≤ n → Leaves n r
Leaves-le m n _ (skips h) k = skips (omega arith)
Leaves-le m n _ (pushes h) k = pushes (omega arith)
Leaves-le m n _ fails k = fails
Leaves-le m n _ throws k = throws

-- A branch keeps what both its sides keep.
Leaves-if :
    (n : ℕ) (b : Bool) {x y : LexStep}
    → (b ≡ true → Leaves n x)
    → (b ≡ false → Leaves n y)
    → Leaves n (if b then x else y)
Leaves-if n true f g = f refl
Leaves-if n false f g = g refl

skip_block-Leaves : (line : ℕ) (s : Bytes) → Leaves (length s) (skip_block line s)
unfolding skip_block
skip_block-Leaves line [] = fails
skip_block-Leaves line (c ∷ []) = fails
skip_block-Leaves line (c ∷ d ∷ s) =
    Leaves-if (suc (suc (length s))) (c == b'*' && d == b'/') (λ e. skips (omega arith))
      (λ e.
        Leaves-le (suc (length s)) (suc (suc (length s))) _
          (skip_block-Leaves (if c == b'\n' then suc line else line) (d ∷ s)) (omega arith))

push_punctuation-Leaves : (line c : ℕ) (s : Bytes) → Leaves (length s) (push_punctuation line c s)
unfolding push_punctuation
push_punctuation-Leaves line c s = go (punctuation c)
  where
    go :
        (o : Option TokenType)
        → Leaves (length s) (elim o [
          | none ↦ error_at line (codes "unexpected character '" ++ c ∷ codes "'")
          | some type ↦ push (token_at line type []) s
        ])
    go none = fails
    go (some type) = pushes (omega arith)

push_literal-Leaves :
    (n line : ℕ) (l : Literal) → LeavesLiteral n l → Leaves n (push_literal line l)
push_literal-Leaves n line (literal type text rest) h = pushes h
push_literal-Leaves n line (bad_literal message) h = fails

push_string-Leaves :
    (n line : ℕ) (r : StringResult) → LeavesResult n r → Leaves n (push_string line r)
push_string-Leaves n line (string_value v rest) h = pushes h
push_string-Leaves n line string_unterminated h = fails
push_string-Leaves n line string_out_of_range h = throws
push_string-Leaves n line string_out_of_fuel h = absurd h

tail-le : (s : Bytes) → length (tail s) ≤ length s
tail-le [] = omega arith
tail-le (c ∷ s) = omega arith

name_start-cont : (c : ℕ) → is_name_start c ≡ true → is_name_cont c ≡ true
name_start-cont c h = ground arith

lex_step-Leaves : (m line c : ℕ) (s : Bytes) → Leaves (length s) (lex_step m line c s)
unfolding lex_step
lex_step-Leaves m line c s =
    Leaves-if n (c == b'\n') (λ e. skips (omega arith))
      λ e1.
        Leaves-if n (is_space c) (λ e. skips (omega arith))
          λ e2.
            Leaves-if n (c == b'/' && next_eq b'/' s) (λ e. skips (skip_line-le s))
              λ e3.
                Leaves-if n (c == b'/' && next_eq b'*' s)
                  (λ e.
                    Leaves-le (length (tail s)) n _ (skip_block-Leaves line (tail s)) (tail-le s))
                  λ e4.
                    Leaves-if n (is_name_start c)
                      (λ e. pushes (span-lt is_name_cont c s (name_start-cont c e)))
                      λ e5.
                        Leaves-if n (is_digit c)
                          (λ e. push_literal-Leaves n line _ (number-Leaves c s e))
                          λ e6.
                            Leaves-if n (c == b'.' && next_is is_digit s)
                              (λ e. push_literal-Leaves n line (dot_number s) (dot_number-Leaves s))
                              λ e7.
                                Leaves-if n (c == b'"')
                                  (λ e.
                                    push_string-Leaves n line _
                                      (string_loop-Leaves m (suc n) [] s (omega arith)))
                                  λ e8.
                                    Leaves-if n (c == b'=' && next_eq b'>' s)
                                      (λ e. pushes (tail-le s))
                                      λ e9. push_punctuation-Leaves line c s
  where
    n : ℕ
    n = length s

abbrev IsEnding : LexResult → Type 0
IsEnding out_of_fuel = ⊥
IsEnding r = Unit {0}

cons_token-IsEnding : (t : Token) (r : LexResult) → IsEnding r → IsEnding (cons_token t r)
cons_token-IsEnding t (tokens ts) h = tt
cons_token-IsEnding t (failed e) h = tt
cons_token-IsEnding t out_of_range h = tt
cons_token-IsEnding t out_of_fuel h = h

lex_next-IsEnding :
    (n line : ℕ) (loop : ℕ → Bytes → LexResult) (step : LexStep)
    → Leaves n step
    → ((l : ℕ) (rest : Bytes) → length rest ≤ n → IsEnding (loop l rest))
    → IsEnding (elim step [
      | skip line' rest ↦ loop line' rest
      | push t rest ↦ cons_token t (loop line rest)
      | lex_error e ↦ failed e
      | step_out_of_range ↦ out_of_range
      | step_out_of_fuel ↦ out_of_fuel
    ])
lex_next-IsEnding n line loop _ (skips {line = l} {rest} h) k = k l rest h
lex_next-IsEnding n line loop _ (pushes {t} {rest} h) k =
    cons_token-IsEnding t (loop line rest) (k line rest h)
lex_next-IsEnding n line loop _ fails k = tt
lex_next-IsEnding n line loop _ throws k = tt

lex_loop-IsEnding :
    (m fuel line : ℕ) (s : Bytes) → length s < fuel → IsEnding (lex_loop m fuel line s)
unfolding lex_loop
lex_loop-IsEnding m zero line s h = absurd (omega arith)
lex_loop-IsEnding m (suc fuel) line [] h = tt
lex_loop-IsEnding m (suc fuel) line (c ∷ s) h =
    lex_next-IsEnding (length s) line (lex_loop m fuel) (lex_step m line c s)
      (lex_step-Leaves m line c s) (λ l rest k. lex_loop-IsEnding m fuel l rest (omega arith))

IsEnding-ne : (r : LexResult) → IsEnding r → r ≢ out_of_fuel
IsEnding-ne (tokens ts) h = cc
IsEnding-ne (failed e) h = cc
IsEnding-ne out_of_range h = cc
IsEnding-ne out_of_fuel h = absurd h

-- For every input and every range of `long`, Tokenize ends: it returns tokens, fails with a
-- LexError, or throws std::out_of_range; the model's fuel is never what stops it.
pub tokenize-ne-out_of_fuel : (long_max : ℕ) (src : Bytes) → tokenize long_max src ≢ out_of_fuel
unfolding tokenize
tokenize-ne-out_of_fuel m src =
    IsEnding-ne _ (lex_loop-IsEnding m (suc (length src)) 1 src (omega arith))
