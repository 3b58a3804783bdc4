-- ===== src/Lexer.antt =====
-- The lexer (neo-compiler/src/syntax/lexer.rs). A source is its bytes; a string of a token is the
-- list of its characters' numbers. The loops over an index are recursions on the bytes from the
-- index on: a number of bytes to skip stands for an index that was moved forward.

pub mod Words
pub mod Bounds
pub mod Rounds
pub mod Spans
pub mod Spelling
pub mod Texts
pub mod Reads
use neo_lang.Prelude.{
  ℕ, zero, suc, ◌+◌, ◌-◌, ◌*◌, Bool, true, false, ◌&&◌, ◌||◌, not, Option, none, some, List, [],
  ◌∷◌, ◌++◌, ◌==◌, leb, if◌then◌else◌, length, take, drop, Result, ok, err, ◌>>=◌,
}
use neo_lang.Diagnostics.{Span, empty}
use neo_lang.Link.{same_name}
use neo_lang.Lexer.Words.{Token, operators, keywords}

pub data LexMessage : Type 0 where
  unterminated_string invalid_hex_escape invalid_escape : LexMessage
  empty_hex_int empty_binary_int unexpected_character : LexMessage

pub record LexError : Type 0 where
  pub line : ℕ
  pub message : LexMessage
  pub span : Span

pub record Lexed : Type 0 where
  pub tokens : List (ℕ × Token)
  pub spans : List Span

-- `LexError::new` with the span's ends.
unfoldable pub lex_error : ℕ → LexMessage → ℕ → ℕ → LexError
lex_error line message start end = record {
  line = line;
  message = message;
  span = record { start = start; end = end };
}

-- In front, since the list of the tokens behind comes first here.
unfoldable pub push_token : ℕ → Token → Span → Lexed → Lexed
push_token line token span lexed = record {
  tokens = (line, token) ∷ lexed.tokens;
  spans = span ∷ lexed.spans;
}

unfoldable pub between : ℕ → ℕ → ℕ → Bool
between lo hi c = leb lo c && leb c hi

unfoldable pub is_digit : ℕ → Bool
is_digit c = between b'0' b'9' c

unfoldable pub is_hex_digit : ℕ → Bool
is_hex_digit c = is_digit c || (between b'a' b'f' c || between b'A' b'F' c)

unfoldable pub is_ident_start : ℕ → Bool
is_ident_start c = between b'a' b'z' c || (between b'A' b'Z' c || (c == b'_'))

unfoldable pub is_ident_cont : ℕ → Bool
is_ident_cont c = is_ident_start c || is_digit c

-- How many bytes in front pass the test: a `while` loop over the index.
unfoldable pub count_while : (ℕ → Bool) → List ℕ → ℕ
count_while test [] = 0
count_while test (c ∷ rest) = let more = count_while test rest in if test c then suc more else 0

unfoldable pub starts_with : List ℕ → List ℕ → Bool
starts_with [] rest = true
starts_with (p ∷ prefix) [] = false
starts_with (p ∷ prefix) (c ∷ rest) = (p == c) && starts_with prefix rest

unfoldable pub find_operator : List (List ℕ × Token) → List ℕ → Option (ℕ × Token)
find_operator [] rest = none
find_operator ((text, token) ∷ table) rest =
    if starts_with text rest then some (length text, token) else find_operator table rest

unfoldable pub find_keyword : List (List ℕ × Token) → List ℕ → Token
find_keyword [] name = Token.ident name
find_keyword ((text, token) ∷ table) name =
    if same_name text name then token else find_keyword table name

unfoldable pub keyword_or_ident : List ℕ → Token
keyword_or_ident name = find_keyword keywords name

unfoldable pub hex_escape_digit : ℕ → Option ℕ
hex_escape_digit b =
    if between b'0' b'9' b
    then some (b - b'0')
    else if between b'a' b'f' b
    then some (10 + (b - b'a'))
    else if between b'A' b'F' b
    then some (10 + (b - b'A'))
    else none

-- The character of an escape of one letter.
unfoldable pub simple_escape : ℕ → Option ℕ
simple_escape b =
    if b == b'n'
    then some 0x0a
    else if b == b'r'
    then some 0x0d
    else if b == b't'
    then some 0x09
    else if b == 0x5c
    then some 0x5c
    else if b == 0x22
    then some 0x22
    else if b == b'0'
    then some 0
    else if b == b'a'
    then some 0x07
    else if b == b'b'
    then some 0x08
    else if b == b'f'
    then some 0x0c
    else if b == b'v'
    then some 0x0b
    else none

unfoldable pub hex_byte : ℕ → ℕ → Option ℕ → Option ℕ → Result LexError (ℕ × ℕ)
hex_byte line index (some h1) (some h2) = ok (16 * h1 + h2, index + 4)
hex_byte line index _ _ = err (lex_error line invalid_hex_escape index (index + 4))

-- The bytes behind `\x`, the backslash at `index`.
unfoldable pub hex_escape : ℕ → ℕ → List ℕ → Result LexError (ℕ × ℕ)
hex_escape line index [] = err (lex_error line invalid_hex_escape index (index + 2))
hex_escape line index (b ∷ []) = err (lex_error line invalid_hex_escape index (index + 3))
hex_escape line index (b ∷ c ∷ rest) = hex_byte line index (hex_escape_digit b) (hex_escape_digit c)

unfoldable pub letter_escape : ℕ → ℕ → ℕ → List ℕ → Option ℕ → Result LexError (ℕ × ℕ)
letter_escape line index b rest (some char) = ok (char, index + 2)
letter_escape line index b rest none =
    if b == b'x'
    then hex_escape line index rest
    else err (lex_error line invalid_escape index (index + 2))

-- The bytes behind a backslash at `index`: the character, and the index behind it.
unfoldable pub escape : ℕ → ℕ → ℕ → List ℕ → Result LexError (ℕ × ℕ)
escape line quote_at index [] = err (lex_error line unterminated_string quote_at (index + 1))
escape line quote_at index (b ∷ rest) = letter_escape line index b rest (simple_escape b)

-- The loop of `lex_string` from `index` on, behind `skip` more bytes: the characters, and the index
-- behind the closing quote.
unfoldable pub scan_string : ℕ → ℕ → ℕ → ℕ → List ℕ → List ℕ → Result LexError (List ℕ × ℕ)
scan_string line quote_at skip index out [] =
    err (lex_error line unterminated_string quote_at index)
scan_string line quote_at (suc skip) index out (c ∷ rest) =
    scan_string line quote_at skip (index + 1) out rest
scan_string line quote_at zero index out (c ∷ rest) =
    let plain = scan_string line quote_at 0 (index + 1) (out ++ (c ∷ [])) rest in
    let again = λ (char : ℕ) (next : ℕ).
      scan_string line quote_at (next - suc index) (index + 1) (out ++ (char ∷ [])) rest in
    let escaped : Result LexError (List ℕ × ℕ) =
      escape line quote_at index rest >>= λ (char, next). again char next in
    if c == 0x22 then ok (out, index + 1) else if c == 0x5c then escaped else plain

unfoldable pub lex_string : ℕ → ℕ → List ℕ → Result LexError (List ℕ × ℕ)
lex_string line quote_at behind = scan_string line quote_at 0 (quote_at + 1) [] behind

-- What one round of the loop does at `index`: it moves to an index, or stops.
pub data Round : Type 0 where
  newline : Round
  blank : (next : ℕ) → Round
  token : (next : ℕ) → Token → Round
  fails : LexError → Round

unfoldable pub string_round : (List ℕ → Token) → Result LexError (List ℕ × ℕ) → Round
string_round make (ok (text, next)) = token next (make text)
string_round make (err e) = fails e

-- Digits behind `0x` or `0b`, `n` of them.
unfoldable pub prefixed_int : ℕ → ℕ → LexMessage → List ℕ → ℕ → Round
prefixed_int line index message rest zero = fails (lex_error line message index (index + 2))
prefixed_int line index message rest (suc n) =
    token (index + 2 + suc n) (Token.int_lit (take (2 + suc n) rest))

unfoldable pub is_binary_digit : ℕ → Bool
is_binary_digit c = (c == b'0') || ((c == b'1') || (c == b'_'))

unfoldable pub decimal_int : ℕ → List ℕ → Round
decimal_int index rest =
    let n = count_while (λ c. is_digit c || (c == b'_')) rest in
    token (index + n) (Token.int_lit (take n rest))

-- An integer at `index`, its first byte a digit.
unfoldable pub int_round : ℕ → ℕ → List ℕ → Round
int_round line index rest =
    if starts_with (b'0' ∷ b'x' ∷ []) rest || starts_with (b'0' ∷ b'X' ∷ []) rest
    then prefixed_int line index empty_hex_int rest
        (count_while (λ c. is_hex_digit c || (c == b'_')) (drop 2 rest))
    else if starts_with (b'0' ∷ b'b' ∷ []) rest || starts_with (b'0' ∷ b'B' ∷ []) rest
    then prefixed_int line index empty_binary_int rest (count_while is_binary_digit (drop 2 rest))
    else decimal_int index rest

unfoldable pub word_round : ℕ → ℕ → List ℕ → Round
word_round index c rest =
    let n = suc (count_while is_ident_cont rest) in
    token (index + n) (keyword_or_ident (take n (c ∷ rest)))

-- The arms behind the operators.
unfoldable pub literal_round : ℕ → ℕ → ℕ → List ℕ → Round
literal_round line index c rest =
    if c == 0x22
    then string_round Token.string_lit (lex_string line index rest)
    else if starts_with (b'b' ∷ 0x22 ∷ []) (c ∷ rest)
    then string_round Token.buffer_lit (lex_string line (index + 1) (drop 1 rest))
    else if is_digit c
    then int_round line index (c ∷ rest)
    else if is_ident_start c
    then word_round index c rest
    else fails (lex_error line unexpected_character index (index + 1))

unfoldable pub operator_round : ℕ → ℕ → ℕ → List ℕ → Option (ℕ × Token) → Round
operator_round line index c rest (some (n, operator)) = token (index + n) operator
operator_round line index c rest none = literal_round line index c rest

unfoldable pub lex_round : ℕ → ℕ → ℕ → List ℕ → Round
lex_round line index c rest =
    if c == 0x0a
    then newline
    else if (c == 0x20) || ((c == 0x09) || (c == 0x0d))
    then blank (index + 1)
    else if starts_with (b'/' ∷ b'/' ∷ []) (c ∷ rest)
    then blank (index + 2 + count_while (λ d. not (d == 0x0a)) (drop 1 rest))
    else operator_round line index c rest (find_operator operators (c ∷ rest))

unfoldable pub follow : (ℕ → ℕ → Result LexError Lexed) → ℕ → ℕ → Round → Result LexError Lexed
follow again line index newline = again 0 (line + 1)
follow again line index (blank next) = again (next - suc index) line
follow again line index (token next t) = again (next - suc index) line >>= λ lexed.
    ok (push_token line t (record { start = index; end = next }) lexed)
follow again line index (fails e) = err e

-- The loop from `index` on, behind `skip` more bytes.
unfoldable pub lex_from : ℕ → ℕ → ℕ → List ℕ → Result LexError Lexed
lex_from skip line index [] =
    ok (push_token line Token.eof (empty index) (record { tokens = []; spans = [] }))
lex_from (suc skip) line index (c ∷ rest) = lex_from skip line (index + 1) rest
lex_from zero line index (c ∷ rest) =
    follow (λ skip line'. lex_from skip line' (index + 1) rest) line index
      (lex_round line index c rest)

unfoldable pub lex : List ℕ → Result LexError Lexed
lex src = lex_from 0 1 0 src
