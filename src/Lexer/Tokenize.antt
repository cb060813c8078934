-- ===== src/Lexer/Tokenize.antt =====
-- Tokenize: the loop, with the rest of the input in place of the index into it.
use voodoo.Prelude.{
  ℕ, zero, suc, List, [], ◌∷◌, ◌++◌, ◌&&◌, Option, none, some, ◌==◌, if◌then◌else◌, length,
}
use voodoo.Prelude.Text.{Bytes, codes}
use voodoo.Lexer.Types.{
  TokenType, Token, LexError, k_name, k_string_literal, k_arrow, k_l_paren, k_r_paren, k_l_brace,
  k_r_brace, k_l_angle, k_r_angle, k_comma, k_semi, k_at, k_equals, k_minus, k_question, k_dot,
  k_l_bracket, k_r_bracket, k_ampersand, k_pipe, k_end,
}
use voodoo.Lexer.Chars.{
  is_space, is_digit, is_name_start, is_name_cont, next_is, next_eq, span, tail,
}
use voodoo.Lexer.Numbers.{Literal, literal, bad_literal, number, dot_number}
use voodoo.Lexer.Strings.{
  StringResult, string_value, string_unterminated, string_out_of_range, string_out_of_fuel,
  string_loop,
}

-- One round of the loop: what it skips or pushes, with the line and the input after it.
-- `step_out_of_range` is the exception of std::stol, `step_out_of_fuel` belongs to the model only.
pub data LexStep : Type 0 where
  skip : (line : ℕ) (rest : Bytes) → LexStep
  push : (token : Token) (rest : Bytes) → LexStep
  lex_error : LexError → LexStep
  step_out_of_range step_out_of_fuel : LexStep

abbrev pub token_at : ℕ → TokenType → Bytes → Token
token_at line type text = record { type = type; text = text; line = line }

abbrev pub error_at : ℕ → Bytes → LexStep
error_at line message = lex_error (record { message = message; line = line })

-- `while (i < n && src[i] != '\n') ++i`
unfoldable pub skip_line : Bytes → Bytes
skip_line [] = []
skip_line (c ∷ s) = let rest = skip_line s in if c == b'\n' then c ∷ s else rest

-- The loop over a block comment, and the error if it ends with the input.
unfoldable pub skip_block : ℕ → Bytes → LexStep
skip_block line [] = error_at line (codes "unterminated block comment")
skip_block line (c ∷ []) = error_at line (codes "unterminated block comment")
skip_block line (c ∷ d ∷ s) =
    let rest = skip_block (if c == b'\n' then suc line else line) (d ∷ s) in
    if c == b'*' && d == b'/' then skip line s else rest

unfoldable pub punctuation : ℕ → Option TokenType
punctuation c =
    if c == b'('
    then some k_l_paren
    else if c == b')'
    then some k_r_paren
    else if c == b'{'
    then some k_l_brace
    else if c == b'}'
    then some k_r_brace
    else if c == b'<'
    then some k_l_angle
    else if c == b'>'
    then some k_r_angle
    else if c == b','
    then some k_comma
    else if c == b';'
    then some k_semi
    else if c == b'@'
    then some k_at
    else if c == b'='
    then some k_equals
    else if c == b'-'
    then some k_minus
    else if c == b'?'
    then some k_question
    else if c == b'.'
    then some k_dot
    else if c == b'['
    then some k_l_bracket
    else if c == b']'
    then some k_r_bracket
    else if c == b'&'
    then some k_ampersand
    else if c == b'|'
    then some k_pipe
    else none

-- The switch at the end of the loop.
unfoldable pub push_punctuation : ℕ → ℕ → Bytes → LexStep
unfolding punctuation
push_punctuation line c s = elim (punctuation c) [
  | none ↦ error_at line (codes "unexpected character '" ++ c ∷ codes "'")
  | some type ↦ push (token_at line type []) s
]

abbrev pub push_literal : ℕ → Literal → LexStep
push_literal line (literal type text rest) = push (token_at line type text) rest
push_literal line (bad_literal message) = error_at line message

abbrev pub push_string : ℕ → StringResult → LexStep
push_string line (string_value value rest) = push (token_at line k_string_literal value) rest
push_string line string_unterminated = error_at line (codes "unterminated string literal")
push_string line string_out_of_range = step_out_of_range
push_string line string_out_of_fuel = step_out_of_fuel

abbrev pub push_name : ℕ → Bytes × Bytes → LexStep
push_name line (name, rest) = push (token_at line k_name name) rest

unfoldable pub lex_step : ℕ → ℕ → ℕ → Bytes → LexStep
unfolding span skip_line skip_block number dot_number string_loop push_punctuation
lex_step long_max line c s =
    if c == b'\n'
    then skip (suc line) s
    else if is_space c
    then skip line s
    else if c == b'/' && next_eq b'/' s
    then skip line (skip_line s)
    else if c == b'/' && next_eq b'*' s
    then skip_block line (tail s)
    else if is_name_start c
    then push_name line (span is_name_cont (c ∷ s))
    else if is_digit c
    then push_literal line (number c s)
    else if c == b'.' && next_is is_digit s
    then push_literal line (dot_number s)
    else if c == b'"'
    then push_string line (string_loop long_max (suc (length s)) [] s)
    else if c == b'=' && next_eq b'>' s
    then push (token_at line k_arrow []) (tail s)
    else push_punctuation line c s

pub data LexResult : Type 0 where
  tokens : List Token → LexResult
  failed : LexError → LexResult
  out_of_range out_of_fuel : LexResult

abbrev pub cons_token : Token → LexResult → LexResult
cons_token t (tokens ts) = tokens (t ∷ ts)
cons_token t r = r

unfoldable pub lex_loop : ℕ → ℕ → ℕ → Bytes → LexResult
lex_loop long_max zero line s = out_of_fuel
lex_loop long_max (suc fuel) line [] = tokens (token_at line k_end [] ∷ [])
lex_loop long_max (suc fuel) line (c ∷ s) = elim (lex_step long_max line c s) [
  | skip line' rest ↦ lex_loop long_max fuel line' rest
  | push t rest ↦ cons_token t (lex_loop long_max fuel line rest)
  | lex_error e ↦ failed e
  | step_out_of_range ↦ out_of_range
  | step_out_of_fuel ↦ out_of_fuel
]

-- Tokenize
unfoldable pub tokenize : ℕ → Bytes → LexResult
unfolding lex_loop
tokenize long_max src = lex_loop long_max (suc (length src)) 1 src
