-- ===== src/Lexer/Spelling.antt =====
-- What is written for a token.
use neo_lang.Prelude.{
  ℕ, ◌≡◌, refl, sym, ap, subst, ◌∙◌, true, some, List, [], ◌∷◌, ◌==◌, length, take, All, Bool-cases,
  inl, inr, eqb→eq,
}
use mathlib.Core.Option.{some-injective}
use neo_lang.Link.{same_name}
use neo_lang.Link.Table.{same_name→eq}
use neo_lang.Lexer.Words.{Token, operators, keywords}
use neo_lang.Lexer.{starts_with, find_operator, find_keyword, keyword_or_ident}

-- The text of a keyword, of an operator and of the end.
abbrev pub fixed_text : Token → List ℕ
fixed_text Token.contract_ = b'c' ∷ b'o' ∷ b'n' ∷ b't' ∷ b'r' ∷ b'a' ∷ b'c' ∷ b't' ∷ []
fixed_text Token.declare_ = b'd' ∷ b'e' ∷ b'c' ∷ b'l' ∷ b'a' ∷ b'r' ∷ b'e' ∷ []
fixed_text Token.package_ = b'p' ∷ b'a' ∷ b'c' ∷ b'k' ∷ b'a' ∷ b'g' ∷ b'e' ∷ []
fixed_text Token.struct_ = b's' ∷ b't' ∷ b'r' ∷ b'u' ∷ b'c' ∷ b't' ∷ []
fixed_text Token.import_ = b'i' ∷ b'm' ∷ b'p' ∷ b'o' ∷ b'r' ∷ b't' ∷ []
fixed_text Token.from_ = b'f' ∷ b'r' ∷ b'o' ∷ b'm' ∷ []
fixed_text Token.const_ = b'c' ∷ b'o' ∷ b'n' ∷ b's' ∷ b't' ∷ []
fixed_text Token.event_ = b'e' ∷ b'v' ∷ b'e' ∷ b'n' ∷ b't' ∷ []
fixed_text Token.emit_ = b'e' ∷ b'm' ∷ b'i' ∷ b't' ∷ []
fixed_text Token.return_ = b'r' ∷ b'e' ∷ b't' ∷ b'u' ∷ b'r' ∷ b'n' ∷ []
fixed_text Token.if_ = b'i' ∷ b'f' ∷ []
fixed_text Token.else_ = b'e' ∷ b'l' ∷ b's' ∷ b'e' ∷ []
fixed_text Token.for_ = b'f' ∷ b'o' ∷ b'r' ∷ []
fixed_text Token.in_ = b'i' ∷ b'n' ∷ []
fixed_text Token.while_ = b'w' ∷ b'h' ∷ b'i' ∷ b'l' ∷ b'e' ∷ []
fixed_text Token.var_ = b'v' ∷ b'a' ∷ b'r' ∷ []
fixed_text Token.as_ = b'a' ∷ b's' ∷ []
fixed_text Token.void = b'v' ∷ b'o' ∷ b'i' ∷ b'd' ∷ []
fixed_text Token.bool = b'b' ∷ b'o' ∷ b'o' ∷ b'l' ∷ []
fixed_text Token.int = b'i' ∷ b'n' ∷ b't' ∷ []
fixed_text Token.string = b's' ∷ b't' ∷ b'r' ∷ b'i' ∷ b'n' ∷ b'g' ∷ []
fixed_text Token.hash160 = b'h' ∷ b'a' ∷ b's' ∷ b'h' ∷ b'1' ∷ b'6' ∷ b'0' ∷ []
fixed_text Token.hash256 = b'h' ∷ b'a' ∷ b's' ∷ b'h' ∷ b'2' ∷ b'5' ∷ b'6' ∷ []
fixed_text Token.map_ = b'm' ∷ b'a' ∷ b'p' ∷ []
fixed_text Token.buffer = b'b' ∷ b'u' ∷ b'f' ∷ b'f' ∷ b'e' ∷ b'r' ∷ []
fixed_text Token.any_ = b'a' ∷ b'n' ∷ b'y' ∷ []
fixed_text Token.null_ = b'n' ∷ b'u' ∷ b'l' ∷ b'l' ∷ []
fixed_text Token.true_ = b't' ∷ b'r' ∷ b'u' ∷ b'e' ∷ []
fixed_text Token.false_ = b'f' ∷ b'a' ∷ b'l' ∷ b's' ∷ b'e' ∷ []
fixed_text Token.self_ = b's' ∷ b'e' ∷ b'l' ∷ b'f' ∷ []
fixed_text Token.shr_eq = b'>' ∷ b'>' ∷ b'=' ∷ []
fixed_text Token.shl_eq = b'<' ∷ b'<' ∷ b'=' ∷ []
fixed_text Token.shr = b'>' ∷ b'>' ∷ []
fixed_text Token.shl = b'<' ∷ b'<' ∷ []
fixed_text Token.ge = b'>' ∷ b'=' ∷ []
fixed_text Token.le = b'<' ∷ b'=' ∷ []
fixed_text Token.eq_eq = b'=' ∷ b'=' ∷ []
fixed_text Token.ne = b'!' ∷ b'=' ∷ []
fixed_text Token.amp_amp = b'&' ∷ b'&' ∷ []
fixed_text Token.pipe_pipe = b'|' ∷ b'|' ∷ []
fixed_text Token.plus_eq = b'+' ∷ b'=' ∷ []
fixed_text Token.minus_eq = b'-' ∷ b'=' ∷ []
fixed_text Token.star_eq = b'*' ∷ b'=' ∷ []
fixed_text Token.slash_eq = b'/' ∷ b'=' ∷ []
fixed_text Token.percent_eq = b'%' ∷ b'=' ∷ []
fixed_text Token.amp_eq = b'&' ∷ b'=' ∷ []
fixed_text Token.pipe_eq = b'|' ∷ b'=' ∷ []
fixed_text Token.caret_eq = b'^' ∷ b'=' ∷ []
fixed_text Token.l_paren = b'(' ∷ []
fixed_text Token.r_paren = b')' ∷ []
fixed_text Token.l_bracket = b'[' ∷ []
fixed_text Token.r_bracket = b']' ∷ []
fixed_text Token.l_brace = b'{' ∷ []
fixed_text Token.r_brace = b'}' ∷ []
fixed_text Token.semi = b';' ∷ []
fixed_text Token.comma = b',' ∷ []
fixed_text Token.dot = b'.' ∷ []
fixed_text Token.colon = b':' ∷ []
fixed_text Token.plus = b'+' ∷ []
fixed_text Token.minus = b'-' ∷ []
fixed_text Token.star = b'*' ∷ []
fixed_text Token.slash = b'/' ∷ []
fixed_text Token.percent = b'%' ∷ []
fixed_text Token.bang = b'!' ∷ []
fixed_text Token.tilde = b'~' ∷ []
fixed_text Token.amp = b'&' ∷ []
fixed_text Token.pipe = b'|' ∷ []
fixed_text Token.caret = b'^' ∷ []
fixed_text Token.lt = b'<' ∷ []
fixed_text Token.gt = b'>' ∷ []
fixed_text Token.eq = b'=' ∷ []
fixed_text Token.attr_open = b'#' ∷ b'[' ∷ []
fixed_text _ = []

-- The text is the token's, for a string up to its first quote.
abbrev pub Spells : Token → List ℕ → Type 0
Spells (Token.ident name) text = text ≡ name
Spells (Token.int_lit digits) text = text ≡ digits
Spells (Token.string_lit chars) text = starts_with (0x22 ∷ []) text ≡ true
Spells (Token.buffer_lit chars) text = starts_with (b'b' ∷ 0x22 ∷ []) text ≡ true
Spells token text = text ≡ fixed_text token

abbrev AllSpelled : List (List ℕ × Token) → Type 0
AllSpelled = All (λ (entry : List ℕ × Token). Spells entry.1 entry.0)

operators-AllSpelled : AllSpelled operators
operators-AllSpelled = search

keywords-AllSpelled : AllSpelled keywords
keywords-AllSpelled = search

starts_with-take :
    (text rest : List ℕ) → starts_with text rest ≡ true → take (length text) rest ≡ text
unfolding starts_with
starts_with-take [] rest h = refl
starts_with-take (p ∷ text) [] h = absurd (cc)
starts_with-take (p ∷ text) (c ∷ rest) h = elim (Bool-cases (p == c)) [
  | inl e ↦
      let h' = rw e at h in
      let same = eqb→eq p c e in let more = starts_with-take text rest h' in rw (same, more) refl
  | inr e ↦ let h' = rw e at h in absurd (cc)
]

find_operator_spelled :
    (table : List (List ℕ × Token)) (rest : List ℕ) (n : ℕ) (t : Token)
    → AllSpelled table
    → find_operator table rest ≡ some (n, t)
    → Spells t (take n rest)
unfolding find_operator
find_operator_spelled [] rest n t spelled h = absurd (cc)
find_operator_spelled ((text, u) ∷ table) rest n t (here, more) h =
    elim (Bool-cases (starts_with text rest)) [
      | inl e ↦
          let h' = some-injective (length text, u) (n, t) (rw e at h) in
          let same_length : length text ≡ n = ap (λ (q : ℕ × Token). q.0) h' in
          let same : u ≡ t = ap (λ (q : ℕ × Token). q.1) h' in
          let written : text ≡ take n rest =
            sym (starts_with-take text rest e) ∙ ap (λ (k : ℕ). take k rest) same_length in
          subst (λ (x : Token). Spells x (take n rest)) same (subst (Spells u) written here)
      | inr e ↦ find_operator_spelled table rest n t more (rw e at h)
    ]

pub operator_spelled :
    (rest : List ℕ) (n : ℕ) (t : Token)
    → find_operator operators rest ≡ some (n, t)
    → Spells t (take n rest)
operator_spelled rest n t h = find_operator_spelled operators rest n t operators-AllSpelled h

find_keyword_spelled :
    (table : List (List ℕ × Token)) (name : List ℕ)
    → AllSpelled table
    → Spells (find_keyword table name) name
unfolding find_keyword
find_keyword_spelled [] name spelled = refl
find_keyword_spelled ((text, t) ∷ table) name (here, more) =
    elim (Bool-cases (same_name text name)) [
      | inl e ↦ rw e (subst (Spells t) (same_name→eq text name e) here)
      | inr e ↦ rw e (find_keyword_spelled table name more)
    ]

pub keyword_or_ident_spelled : (name : List ℕ) → Spells (keyword_or_ident name) name
unfolding keyword_or_ident
keyword_or_ident_spelled name = find_keyword_spelled keywords name keywords-AllSpelled
