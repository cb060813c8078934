-- ===== src/Lexer/Tests.antt =====
-- Each theorem about Tokenize at a concrete input.
use voodoo.Prelude.{◌≡◌, ◌≢◌, refl, List, [], ◌∷◌}
use voodoo.Prelude.Text.{Bytes, codes}
use voodoo.Lexer.Types.{Token, k_name, k_float_number, k_string_literal, k_l_brace, k_semi, k_end}
use voodoo.Lexer.Strings.{string_step}
use voodoo.Lexer.Tokenize.{
  lex_step, punctuation, tokens, failed, out_of_range, out_of_fuel, tokenize,
}
use voodoo.Lexer.Ends.{tokenize-ne-out_of_fuel}
use voodoo.Lexer.Printer.{Lexeme, name, decimal, hex, float, string, arrow, punct, print, tokens_of}
use voodoo.Lexer.RoundTrip.{tokenize-print}
use voodoo.Lexer.Sentinel.{Ended, tokenize-Ended}

abbrev text : Bytes
text = codes "f { // c\n 1.5 /* \n */ \"a\\065\" ;"

abbrev text_tokens : List Token
text_tokens =
    record { type = k_name; text = codes "f"; line = 1 }
    ∷ record { type = k_l_brace; text = []; line = 1 }
    ∷ record { type = k_float_number; text = codes "1.5"; line = 2 }
    ∷ record { type = k_string_literal; text = codes "aA"; line = 3 }
    ∷ record { type = k_semi; text = []; line = 3 }
    ∷ record { type = k_end; text = []; line = 3 }
    ∷ []

tokenize_text : tokenize 2147483647 text ≡ tokens text_tokens
unfolding tokenize lex_step string_step
tokenize_text = refl

tokenize_octal :
    tokenize 2147483647 (codes " 07")
    ≡ failed (record { message = codes "octal values are not allowed"; line = 1 })
unfolding tokenize lex_step string_step
tokenize_octal = refl

-- A character code above what a `long` holds.
tokenize_code : tokenize 99 (codes "\"\\100\"") ≡ out_of_range
unfolding tokenize lex_step string_step
tokenize_code = refl

abbrev lexemes : List Lexeme
lexemes =
    name b'm' (codes "od")
    ∷ decimal b'4' (codes "2")
    ∷ hex b'F' (codes "f")
    ∷ float b'1' [] b'5' []
    ∷ string (codes "a\"\\b")
    ∷ arrow
    ∷ punct k_semi b';'
    ∷ []

tokenize-print_example : tokenize 2147483647 (print lexemes) ≡ tokens (tokens_of 1 lexemes)
unfolding punctuation
tokenize-print_example = tokenize-print 2147483647 lexemes (
  (refl, refl),
  ((refl, refl, refl), ((refl, refl), ((refl, refl, refl, refl), (refl, (tt, (refl, tt)))))),
)

tokenize-ne-out_of_fuel_example : tokenize 2147483647 text ≢ out_of_fuel
tokenize-ne-out_of_fuel_example = tokenize-ne-out_of_fuel 2147483647 text

tokenize-Ended_example : Ended text_tokens
tokenize-Ended_example = tokenize-Ended 2147483647 text text_tokens tokenize_text
