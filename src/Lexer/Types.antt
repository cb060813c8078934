-- ===== src/Lexer/Types.antt =====
-- TokenType, Token and LexError of src/lexer.h.
use voodoo.Prelude.{ℕ}
use voodoo.Prelude.Text.{Bytes}

pub data TokenType : Type 0 where
  k_name k_number k_hex_number k_float_number k_string_literal : TokenType
  k_arrow k_l_paren k_r_paren k_l_brace k_r_brace k_l_angle k_r_angle k_comma k_semi : TokenType
  k_at k_equals k_minus k_question k_dot k_l_bracket k_r_bracket k_ampersand k_pipe : TokenType
  k_end : TokenType

pub record Token : Type 0 where
  pub type : TokenType
  pub text : Bytes
  pub line : ℕ

-- The message without the line that `what()` appends to it.
pub record LexError : Type 0 where
  pub message : Bytes
  pub line : ℕ
