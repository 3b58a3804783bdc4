-- ===== src/Lexer/Words.antt =====
-- The tokens (neo-compiler/src/syntax/lexer.rs), the operators in the order in which the lexer tries
-- them, and the keywords.
use neo_lang.Prelude.{ℕ, List, [], ◌∷◌, ◌++◌}

pub data Token : Type 0 where
  contract_ declare_ package_ struct_ import_ from_ const_ event_ emit_ return_ if_ else_ : Token
  for_ in_ while_ var_ as_ void bool int string hash160 hash256 map_ buffer any_ null_ : Token
  true_ false_ self_ : Token
  shr_eq shl_eq shr shl ge le eq_eq ne amp_amp pipe_pipe plus_eq minus_eq star_eq slash_eq : Token
  percent_eq amp_eq pipe_eq caret_eq l_paren r_paren l_bracket r_bracket l_brace r_brace : Token
  semi comma dot colon plus minus star slash percent bang tilde amp pipe caret lt gt eq : Token
  attr_open : Token
  ident : List ℕ → Token
  string_lit : List ℕ → Token
  buffer_lit : List ℕ → Token
  int_lit : List ℕ → Token
  eof : Token

-- `#[`, and the operators of three and of two bytes.
abbrev pub long_operators : List (List ℕ × Token)
long_operators =
    (b'#' ∷ b'[' ∷ [], Token.attr_open)
    ∷ (b'>' ∷ b'>' ∷ b'=' ∷ [], Token.shr_eq)
    ∷ (b'<' ∷ b'<' ∷ b'=' ∷ [], Token.shl_eq)
    ∷ (b'>' ∷ b'>' ∷ [], Token.shr)
    ∷ (b'<' ∷ b'<' ∷ [], Token.shl)
    ∷ (b'>' ∷ b'=' ∷ [], Token.ge)
    ∷ (b'<' ∷ b'=' ∷ [], Token.le)
    ∷ (b'=' ∷ b'=' ∷ [], Token.eq_eq)
    ∷ (b'!' ∷ b'=' ∷ [], Token.ne)
    ∷ (b'&' ∷ b'&' ∷ [], Token.amp_amp)
    ∷ (b'|' ∷ b'|' ∷ [], Token.pipe_pipe)
    ∷ (b'+' ∷ b'=' ∷ [], Token.plus_eq)
    ∷ (b'-' ∷ b'=' ∷ [], Token.minus_eq)
    ∷ (b'*' ∷ b'=' ∷ [], Token.star_eq)
    ∷ (b'/' ∷ b'=' ∷ [], Token.slash_eq)
    ∷ (b'%' ∷ b'=' ∷ [], Token.percent_eq)
    ∷ (b'&' ∷ b'=' ∷ [], Token.amp_eq)
    ∷ (b'|' ∷ b'=' ∷ [], Token.pipe_eq)
    ∷ (b'^' ∷ b'=' ∷ [], Token.caret_eq)
    ∷ []

-- The operators of one byte.
abbrev pub short_operators : List (List ℕ × Token)
short_operators =
    (b'(' ∷ [], Token.l_paren)
    ∷ (b')' ∷ [], Token.r_paren)
    ∷ (b'[' ∷ [], Token.l_bracket)
    ∷ (b']' ∷ [], Token.r_bracket)
    ∷ (b'{' ∷ [], Token.l_brace)
    ∷ (b'}' ∷ [], Token.r_brace)
    ∷ (b';' ∷ [], Token.semi)
    ∷ (b',' ∷ [], Token.comma)
    ∷ (b'.' ∷ [], Token.dot)
    ∷ (b':' ∷ [], Token.colon)
    ∷ (b'+' ∷ [], Token.plus)
    ∷ (b'-' ∷ [], Token.minus)
    ∷ (b'*' ∷ [], Token.star)
    ∷ (b'/' ∷ [], Token.slash)
    ∷ (b'%' ∷ [], Token.percent)
    ∷ (b'!' ∷ [], Token.bang)
    ∷ (b'~' ∷ [], Token.tilde)
    ∷ (b'&' ∷ [], Token.amp)
    ∷ (b'|' ∷ [], Token.pipe)
    ∷ (b'^' ∷ [], Token.caret)
    ∷ (b'<' ∷ [], Token.lt)
    ∷ (b'>' ∷ [], Token.gt)
    ∷ (b'=' ∷ [], Token.eq)
    ∷ []

abbrev pub operators : List (List ℕ × Token)
operators = long_operators ++ short_operators

abbrev pub keywords : List (List ℕ × Token)
keywords =
    (b'c' ∷ b'o' ∷ b'n' ∷ b't' ∷ b'r' ∷ b'a' ∷ b'c' ∷ b't' ∷ [], Token.contract_)
    ∷ (b'd' ∷ b'e' ∷ b'c' ∷ b'l' ∷ b'a' ∷ b'r' ∷ b'e' ∷ [], Token.declare_)
    ∷ (b'p' ∷ b'a' ∷ b'c' ∷ b'k' ∷ b'a' ∷ b'g' ∷ b'e' ∷ [], Token.package_)
    ∷ (b's' ∷ b't' ∷ b'r' ∷ b'u' ∷ b'c' ∷ b't' ∷ [], Token.struct_)
    ∷ (b'i' ∷ b'm' ∷ b'p' ∷ b'o' ∷ b'r' ∷ b't' ∷ [], Token.import_)
    ∷ (b'f' ∷ b'r' ∷ b'o' ∷ b'm' ∷ [], Token.from_)
    ∷ (b'c' ∷ b'o' ∷ b'n' ∷ b's' ∷ b't' ∷ [], Token.const_)
    ∷ (b'e' ∷ b'v' ∷ b'e' ∷ b'n' ∷ b't' ∷ [], Token.event_)
    ∷ (b'e' ∷ b'm' ∷ b'i' ∷ b't' ∷ [], Token.emit_)
    ∷ (b'r' ∷ b'e' ∷ b't' ∷ b'u' ∷ b'r' ∷ b'n' ∷ [], Token.return_)
    ∷ (b'i' ∷ b'f' ∷ [], Token.if_)
    ∷ (b'e' ∷ b'l' ∷ b's' ∷ b'e' ∷ [], Token.else_)
    ∷ (b'f' ∷ b'o' ∷ b'r' ∷ [], Token.for_)
    ∷ (b'i' ∷ b'n' ∷ [], Token.in_)
    ∷ (b'w' ∷ b'h' ∷ b'i' ∷ b'l' ∷ b'e' ∷ [], Token.while_)
    ∷ (b'v' ∷ b'a' ∷ b'r' ∷ [], Token.var_)
    ∷ (b'a' ∷ b's' ∷ [], Token.as_)
    ∷ (b'v' ∷ b'o' ∷ b'i' ∷ b'd' ∷ [], Token.void)
    ∷ (b'b' ∷ b'o' ∷ b'o' ∷ b'l' ∷ [], Token.bool)
    ∷ (b'i' ∷ b'n' ∷ b't' ∷ [], Token.int)
    ∷ (b's' ∷ b't' ∷ b'r' ∷ b'i' ∷ b'n' ∷ b'g' ∷ [], Token.string)
    ∷ (b'h' ∷ b'a' ∷ b's' ∷ b'h' ∷ b'1' ∷ b'6' ∷ b'0' ∷ [], Token.hash160)
    ∷ (b'h' ∷ b'a' ∷ b's' ∷ b'h' ∷ b'2' ∷ b'5' ∷ b'6' ∷ [], Token.hash256)
    ∷ (b'm' ∷ b'a' ∷ b'p' ∷ [], Token.map_)
    ∷ (b'b' ∷ b'u' ∷ b'f' ∷ b'f' ∷ b'e' ∷ b'r' ∷ [], Token.buffer)
    ∷ (b'a' ∷ b'n' ∷ b'y' ∷ [], Token.any_)
    ∷ (b'n' ∷ b'u' ∷ b'l' ∷ b'l' ∷ [], Token.null_)
    ∷ (b't' ∷ b'r' ∷ b'u' ∷ b'e' ∷ [], Token.true_)
    ∷ (b'f' ∷ b'a' ∷ b'l' ∷ b's' ∷ b'e' ∷ [], Token.false_)
    ∷ (b's' ∷ b'e' ∷ b'l' ∷ b'f' ∷ [], Token.self_)
    ∷ []
