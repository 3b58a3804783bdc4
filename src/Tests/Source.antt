-- ===== src/Tests/Source.antt =====
-- Concrete inputs of the theorems on the lexer, and small runs of it.
use neo_lang.Prelude.{ℕ, ◌≡◌, refl, List, [], ◌∷◌, ok}
use neo_lang.Diagnostics.{empty}
use neo_lang.Link.{same_name}
use neo_lang.Lexer.Words.{Token}
use neo_lang.Lexer.{
  Lexed, push_token, between, is_digit, is_hex_digit, is_ident_start, is_ident_cont, count_while,
  starts_with, find_operator, find_keyword, keyword_or_ident, prefixed_int, int_round, word_round,
  literal_round, operator_round, lex_round, follow, lex_from, lex, decimal_int,
}
use neo_lang.Lexer.Reads.{AllWritten, lex-AllWritten}
use neo_lang.Lexer.Spans.{LexFits, lex_fits}

-- `if x>>=0xA1`.
abbrev source : List ℕ
source = b'i' ∷ b'f' ∷ 0x20 ∷ b'x' ∷ b'>' ∷ b'>' ∷ b'=' ∷ b'0' ∷ b'x' ∷ b'A' ∷ b'1' ∷ []

abbrev source_lexed : Lexed
source_lexed = record {
  tokens =
      (1, Token.if_)
      ∷ (1, Token.ident (b'x' ∷ []))
      ∷ (1, Token.shr_eq)
      ∷ (1, Token.int_lit (b'0' ∷ b'x' ∷ b'A' ∷ b'1' ∷ []))
      ∷ (1, Token.eof)
      ∷ [];
  spans =
      record { start = 0; end = 2 }
      ∷ record { start = 3; end = 4 }
      ∷ record { start = 4; end = 7 }
      ∷ record { start = 7; end = 11 }
      ∷ record { start = 11; end = 11 }
      ∷ [];
}

source_run : lex source ≡ ok source_lexed
unfolding lex lex_from follow lex_round starts_with operator_round find_operator literal_round
    is_digit between is_ident_start word_round count_while is_ident_cont int_round prefixed_int
    is_hex_digit push_token empty decimal_int find_keyword keyword_or_ident same_name
source_run = refl

lex_fits_example : LexFits 0 11 (lex source)
lex_fits_example = lex_fits source

lex-AllWritten_example : AllWritten source source_lexed.tokens source_lexed.spans
lex-AllWritten_example = lex-AllWritten source source_lexed source_run
