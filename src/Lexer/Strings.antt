-- ===== src/Lexer/Strings.antt =====
-- The string literals of Tokenize. What a `long` holds depends on the host: `long_max` is its
-- greatest value, above which std::stol throws std::out_of_range.
use voodoo.Prelude.{
  ℕ, zero, suc, ◌+◌, ◌-◌, ◌*◌, ◌%◌, [], ◌∷◌, ◌++◌, ◌&&◌, ◌||◌, ltb, leb, ◌==◌, if◌then◌else◌,
}
use voodoo.Prelude.Text.{Bytes}
use voodoo.Lexer.Chars.{is_digit, is_xdigit, next_is, span}

-- The value of a digit, of a decimal or of a hexadecimal number.
abbrev pub digit_value : ℕ → ℕ
digit_value c = if leb c b'9' then c - b'0' else if leb c b'F' then c - b'A' + 10 else c - b'a' + 10

-- std::stol of digits, in unbounded numbers.
abbrev pub read_number : ℕ → ℕ → Bytes → ℕ
read_number base n [] = n
read_number base n (d ∷ ds) = read_number base (n * base + digit_value d) ds

-- One round of the loop over a string's characters.
pub data StringStep : Type 0 where
  closed : (rest : Bytes) → StringStep
  char : (byte : ℕ) (rest : Bytes) → StringStep
  unterminated code_too_large : StringStep

-- `value.push_back(static_cast<char>(code))` of a code that std::stol has read.
abbrev pub char_of_code : ℕ → ℕ → Bytes → StringStep
char_of_code long_max code rest =
    if ltb long_max code then code_too_large else char (code % 256) rest

-- Behind a backslash.
unfoldable pub escape : ℕ → Bytes → StringStep
unfolding span
escape long_max [] = char b'\\' []
escape long_max (e ∷ s) =
    let (digits, back) = span is_digit (e ∷ s) in
    let (hex, hex_back) = span is_xdigit s in
    if e == b'"' || e == b'\\'
    then char e s
    else if is_digit e
    then char_of_code long_max (read_number 10 0 digits) back
    else if e == b'x' && next_is is_xdigit s
    then char_of_code long_max (read_number 16 0 hex) hex_back
    else char b'\\' (e ∷ s)

unfoldable pub string_step : ℕ → Bytes → StringStep
unfolding escape
string_step long_max [] = unterminated
string_step long_max (c ∷ s) =
    if c == b'"'
    then closed s
    else if c == b'\n'
    then unterminated
    else if c == b'\\'
    then escape long_max s
    else char c s

-- What the loop makes of the text behind the opening quote.
pub data StringResult : Type 0 where
  string_value : (value rest : Bytes) → StringResult
  string_unterminated string_out_of_range string_out_of_fuel : StringResult

unfoldable pub string_loop : ℕ → ℕ → Bytes → Bytes → StringResult
string_loop long_max zero value s = string_out_of_fuel
string_loop long_max (suc fuel) value s = elim (string_step long_max s) [
  | closed rest ↦ string_value value rest
  | char byte rest ↦ string_loop long_max fuel (value ++ byte ∷ []) rest
  | unterminated ↦ string_unterminated
  | code_too_large ↦ string_out_of_range
]
