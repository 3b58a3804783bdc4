-- ===== src/Lexer/Texts.antt =====
-- The text under a token's span is what is written for the token.
use neo_lang.Prelude.{
  ℕ, zero, suc, ◌+◌, ◌-◌, ◌≤◌, ◌≡◌, refl, sym, ap, subst, true, ◌||◌, List, [], ◌∷◌, ◌==◌, length,
  take, drop, Result, ok, err, Bool-cases, Option-cases, inl, inr, arith, eqb→eq,
}
use neo_lang.Lexer.Words.{Token, operators}
use neo_lang.Lexer.{
  LexMessage, LexError, count_while, starts_with, find_operator, Round, token, string_round,
  prefixed_int, decimal_int, int_round, word_round, literal_round, operator_round, lex_round,
  is_digit, is_ident_start, is_ident_cont, empty_hex_int, empty_binary_int, keyword_or_ident,
}
use neo_lang.Lexer.Bounds.{Reaches, lex_string_fits}
use neo_lang.Lexer.Spelling.{Spells, operator_spelled, keyword_or_ident_spelled}

-- The round's token, if it gives one, is written at the start of `rest`, which stands at `index`.
abbrev pub IsWritten : ℕ → List ℕ → Round → Type 0
IsWritten index rest (token next t) = Spells t (take (next - index) rest)
IsWritten index rest _ = Unit

starts_with-take_quote :
    (c n : ℕ) (rest : List ℕ)
    → (c == 0x22) ≡ true
    → 1 ≤ n
    → starts_with (0x22 ∷ []) (take n (c ∷ rest)) ≡ true
unfolding starts_with
starts_with-take_quote c zero rest e h = absurd (omega arith)
starts_with-take_quote c (suc n) rest e h = rw (eqb→eq c 0x22 e) refl

starts_with-take_buffer :
    (n : ℕ) (rest : List ℕ)
    → starts_with (b'b' ∷ 0x22 ∷ []) rest ≡ true
    → 2 ≤ n
    → starts_with (b'b' ∷ 0x22 ∷ []) (take n rest) ≡ true
unfolding starts_with
starts_with-take_buffer zero rest e h = absurd (omega arith)
starts_with-take_buffer (suc zero) rest e h = absurd (omega arith)
starts_with-take_buffer (suc (suc n)) [] e h = e
starts_with-take_buffer (suc (suc n)) (c ∷ []) e h = e
starts_with-take_buffer (suc (suc n)) (c ∷ d ∷ rest) e h = e

IsWritten-string_round :
    (index lo hi : ℕ) (rest : List ℕ) (make : List ℕ → Token) (r : Result LexError (List ℕ × ℕ))
    → Reaches lo hi r
    → ((text : List ℕ) (next : ℕ) → lo ≤ next → Spells (make text) (take (next - index) rest))
    → IsWritten index rest (string_round make r)
unfolding string_round
IsWritten-string_round index lo hi rest make (ok (text, next)) (low, up) spelled =
    spelled text next low
IsWritten-string_round index lo hi rest make (err e) fits spelled = tt

take_shift : (index n : ℕ) (rest : List ℕ) → take (index + n - index) rest ≡ take n rest
take_shift index n rest =
    let same : index + n - index ≡ n = omega arith in ap (λ (k : ℕ). take k rest) same

IsWritten-prefixed_int :
    (line index n : ℕ) (message : LexMessage) (rest : List ℕ)
    → IsWritten index rest (prefixed_int line index message rest n)
unfolding prefixed_int
IsWritten-prefixed_int line index zero message rest = tt
IsWritten-prefixed_int line index (suc n) message rest =
    let same : index + 2 + suc n - index ≡ 2 + suc n = omega arith in
    ap (λ (k : ℕ). take k rest) same

IsWritten-int_round :
    (line index : ℕ) (rest : List ℕ) → IsWritten index rest (int_round line index rest)
unfolding int_round decimal_int
IsWritten-int_round line index rest =
    let hex = starts_with (b'0' ∷ b'x' ∷ []) rest || starts_with (b'0' ∷ b'X' ∷ []) rest in
    let bin = starts_with (b'0' ∷ b'b' ∷ []) rest || starts_with (b'0' ∷ b'B' ∷ []) rest in
    elim (Bool-cases hex) [
      | inl e ↦ rw e (IsWritten-prefixed_int line index _ empty_hex_int rest)
      | inr e ↦ elim (Bool-cases bin) [
        | inl e' ↦ rw (e, e') (IsWritten-prefixed_int line index _ empty_binary_int rest)
        | inr e' ↦ rw (e, e') (take_shift index _ rest)
      ]
    ]

IsWritten-word_round :
    (index c : ℕ) (rest : List ℕ) → IsWritten index (c ∷ rest) (word_round index c rest)
unfolding word_round
IsWritten-word_round index c rest =
    let n = suc (count_while is_ident_cont rest) in
    subst (Spells (keyword_or_ident (take n (c ∷ rest)))) (sym (take_shift index n (c ∷ rest)))
      (keyword_or_ident_spelled (take n (c ∷ rest)))

IsWritten-literal_round :
    (line index c : ℕ) (rest : List ℕ)
    → IsWritten index (c ∷ rest) (literal_round line index c rest)
unfolding literal_round
IsWritten-literal_round line index c rest = elim (Bool-cases (c == 0x22)) [
  | inl e ↦ rw e (
      IsWritten-string_round index (suc index) (index + 1 + length rest) (c ∷ rest) Token.string_lit
        _ (lex_string_fits line index index _ rest (omega arith) refl)
        (λ text next low. starts_with-take_quote c (next - index) rest e (omega arith)))
  | inr e ↦ elim (Bool-cases (starts_with (b'b' ∷ 0x22 ∷ []) (c ∷ rest))) [
    | inl e' ↦
        rw (e, e')
          (IsWritten-string_round index (suc (index + 1)) (index + 1 + 1 + length (drop 1 rest))
            (c ∷ rest) Token.buffer_lit _
            (lex_string_fits line (index + 1) (index + 1) _ (drop 1 rest) (omega arith) refl)
            (λ text next low. starts_with-take_buffer (next - index) (c ∷ rest) e' (omega arith)))
    | inr e' ↦ elim (Bool-cases (is_digit c)) [
      | inl e'' ↦ rw (e, e', e'') (IsWritten-int_round line index (c ∷ rest))
      | inr e'' ↦ elim (Bool-cases (is_ident_start c)) [
        | inl word ↦ rw (e, e', e'', word) (IsWritten-word_round index c rest)
        | inr other ↦ rw (e, e', e'', other) tt
      ]
    ]
  ]
]

pub IsWritten-lex_round :
    (line index c : ℕ) (rest : List ℕ) → IsWritten index (c ∷ rest) (lex_round line index c rest)
unfolding lex_round operator_round
IsWritten-lex_round line index c rest = elim (Bool-cases (c == 0x0a)) [
  | inl e ↦ rw e tt
  | inr e ↦ elim (Bool-cases ((c == 0x20) || ((c == 0x09) || (c == 0x0d)))) [
    | inl e' ↦ rw (e, e') tt
    | inr e' ↦ elim (Bool-cases (starts_with (b'/' ∷ b'/' ∷ []) (c ∷ rest))) [
      | inl e'' ↦ rw (e, e', e'') tt
      | inr e'' ↦ elim (Option-cases (find_operator operators (c ∷ rest))) [
        | inl other ↦ rw (e, e', e'', other) (IsWritten-literal_round line index c rest)
        | inr ((n, t), found) ↦
            rw (e, e', e'', found)
              (subst (Spells t) (sym (take_shift index n (c ∷ rest)))
                (operator_spelled (c ∷ rest) n t found))
      ]
    ]
  ]
]
