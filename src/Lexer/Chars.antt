-- ===== src/Lexer/Chars.antt =====
-- The character tests of src/lexer.cc: those of <cctype> in the "C" locale, on bytes.
use voodoo.Prelude.{ℕ, [], ◌∷◌, Bool, false, ◌&&◌, ◌||◌, leb, ◌==◌, if◌then◌else◌}
use voodoo.Prelude.Text.{Bytes}

abbrev pub is_digit : ℕ → Bool
is_digit c = leb b'0' c && leb c b'9'

abbrev pub is_xdigit : ℕ → Bool
is_xdigit c = is_digit c || (leb b'a' c && leb c b'f') || (leb b'A' c && leb c b'F')

abbrev pub is_alpha : ℕ → Bool
is_alpha c = (leb b'a' c && leb c b'z') || (leb b'A' c && leb c b'Z')

-- A blank, or one of \t \n \v \f \r.
abbrev pub is_space : ℕ → Bool
is_space c = c == b' ' || (leb 9 c && leb c 13)

-- IsNameStart
abbrev pub is_name_start : ℕ → Bool
is_name_start c = is_alpha c || c == b'_'

-- IsNameCont
abbrev pub is_name_cont : ℕ → Bool
is_name_cont c = is_alpha c || is_digit c || c == b'_'

-- Whether the next byte passes a test: `i + 1 < n && p(src[i + 1])`.
abbrev pub next_is : (ℕ → Bool) → Bytes → Bool
next_is p [] = false
next_is p (c ∷ s) = p c

-- `src[i + 1] == c`, where there is one.
abbrev pub next_eq : ℕ → Bytes → Bool
next_eq c s = next_is (λ d. d == c) s

-- `while (i < n && p(src[i])) ++i`: what the loop passes over, and what it leaves.
unfoldable pub span : (ℕ → Bool) → Bytes → Bytes × Bytes
span p [] = ([], [])
span p (c ∷ s) = let (front, back) = span p s in if p c then (c ∷ front, back) else ([], c ∷ s)

abbrev pub tail : Bytes → Bytes
tail [] = []
tail (c ∷ s) = s
