-- ===== src/Lexer.antt =====
-- src/lexer.cc and src/lexer.h: the tokenizer of voodoomc.
pub mod Types
pub mod Chars
pub mod Numbers
pub mod Strings
pub mod Tokenize
pub mod Ends
pub mod Printer
pub mod RoundTrip
pub mod Sentinel
mod Tests
