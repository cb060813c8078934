-- ===== src/Lexer/Printer.antt =====
-- Tokens written out as source text, each with a blank behind it, to be read back.
use voodoo.Prelude.{
  ℕ, ◌≡◌, List, [], ◌∷◌, ◌++◌, Bool, true, false, not, ◌&&◌, ◌||◌, ◌==◌, if◌then◌else◌, some,
}
use voodoo.Prelude.Text.{Bytes}
use voodoo.Lexer.Types.{
  TokenType, Token, k_name, k_number, k_hex_number, k_float_number, k_string_literal, k_arrow,
  k_end,
}
use voodoo.Lexer.Chars.{is_digit, is_xdigit, is_name_start, is_name_cont}
use voodoo.Lexer.Numbers.{is_octal}
use voodoo.Lexer.Tokenize.{punctuation}

abbrev pub all : (ℕ → Bool) → Bytes → Bool
all p [] = true
all p (c ∷ s) = p c && all p s

-- The contents of a string literal, with a backslash in front of a quote or a backslash.
abbrev pub quote : Bytes → Bytes
quote [] = []
quote (c ∷ s) = if c == b'"' || c == b'\\' then b'\\' ∷ c ∷ quote s else c ∷ quote s

-- A token of the source, with the numbers in their parts.
pub data Lexeme : Type 0 where
  name : (first : ℕ) (rest : Bytes) → Lexeme
  decimal : (first : ℕ) (rest : Bytes) → Lexeme
  hex : (first : ℕ) (rest : Bytes) → Lexeme
  float : (first : ℕ) (whole : Bytes) (second : ℕ) (part : Bytes) → Lexeme
  string : (value : Bytes) → Lexeme
  arrow : Lexeme
  punct : (type : TokenType) (spelling : ℕ) → Lexeme

abbrev pub spelled : Lexeme → Bytes
spelled (name c s) = c ∷ s
spelled (decimal c s) = c ∷ s
spelled (hex c s) = b'0' ∷ b'x' ∷ c ∷ s
spelled (float c s d t) = (c ∷ s) ++ b'.' ∷ d ∷ t
spelled (string s) = b'"' ∷ (quote s ++ b'"' ∷ [])
spelled arrow = b'=' ∷ b'>' ∷ []
spelled (punct type c) = c ∷ []

-- What the lexer makes of it.
abbrev pub token_of : ℕ → Lexeme → Token
token_of line (name c s) = record { type = k_name; text = c ∷ s; line = line }
token_of line (decimal c s) = record { type = k_number; text = c ∷ s; line = line }
token_of line (hex c s) = record { type = k_hex_number; text = b'0' ∷ b'x' ∷ c ∷ s; line = line }
token_of line (float c s d t) = record {
  type = k_float_number;
  text = (c ∷ s) ++ b'.' ∷ d ∷ t;
  line = line;
}
token_of line (string s) = record { type = k_string_literal; text = s; line = line }
token_of line arrow = record { type = k_arrow; text = []; line = line }
token_of line (punct type c) = record { type = type; text = []; line = line }

-- What a lexeme must meet to be spelled as it is.
abbrev pub IsLexeme : Lexeme → Type 0
IsLexeme (name c s) = (is_name_start c ≡ true) × (all is_name_cont s ≡ true)
IsLexeme (decimal c s) = (is_digit c ≡ true) × (all is_digit s ≡ true) × (is_octal (c ∷ s) ≡ false)
IsLexeme (hex c s) = (is_xdigit c ≡ true) × (all is_xdigit s ≡ true)
IsLexeme (float c s d t) =
    (is_digit c ≡ true) × (all is_digit s ≡ true) × (is_digit d ≡ true) × (all is_digit t ≡ true)
IsLexeme (string s) = all (λ c. not (c == b'\n')) s ≡ true
IsLexeme arrow = Unit
IsLexeme (punct type c) = punctuation c ≡ some type

abbrev pub AllLexemes : List Lexeme → Type 0
AllLexemes [] = Unit
AllLexemes (t ∷ ts) = IsLexeme t × AllLexemes ts

abbrev pub print : List Lexeme → Bytes
print [] = []
print (t ∷ ts) = spelled t ++ b' ' ∷ print ts

abbrev pub tokens_of : ℕ → List Lexeme → List Token
tokens_of line [] = record { type = k_end; text = []; line = line } ∷ []
tokens_of line (t ∷ ts) = token_of line t ∷ tokens_of line ts
