-- ===== src/Lexer/Rounds.antt =====
-- Each round of the lexer moves its index, and stays in the source.
use neo_lang.Prelude.{
  ℕ, ◌+◌, ◌≤◌, ◌≡◌, refl, true, ◌||◌, not, List, [], ◌∷◌, ◌==◌, length, drop, length-drop, All,
  Bool-cases, Option-cases, inl, inr, arith,
}
use neo_lang.Lexer.Words.{Token, operators}
use neo_lang.Lexer.{
  starts_with, find_operator, decimal_int, int_round, word_round, literal_round, operator_round,
  lex_round, is_digit, is_hex_digit, is_binary_digit, is_ident_start, is_ident_cont, empty_hex_int,
  empty_binary_int, unexpected_character,
}
use neo_lang.Lexer.Bounds.{
  RoundFits, error_fits, starts_with_le, find_operator_fits, string_round_fits, lex_string_fits,
  prefixed_fits, prefix_le, count_while_le, count_while_first,
}

decimal_int_fits :
    (index hi c : ℕ) (rest : List ℕ)
    → is_digit c ≡ true
    → hi ≡ index + length (c ∷ rest)
    → RoundFits index hi (decimal_int index (c ∷ rest))
unfolding decimal_int
decimal_int_fits index hi c rest digit h =
    let test = λ (d : ℕ). is_digit d || (d == b'_') in
    let le = count_while_le test (c ∷ rest) in
    let first = count_while_first test c rest (rw digit refl) in (omega arith, omega arith)

int_round_fits :
    (line index hi c : ℕ) (rest : List ℕ)
    → is_digit c ≡ true
    → hi ≡ index + length (c ∷ rest)
    → RoundFits index hi (int_round line index (c ∷ rest))
unfolding int_round
int_round_fits line index hi c rest digit h =
    let hex =
      starts_with (b'0' ∷ b'x' ∷ []) (c ∷ rest) || starts_with (b'0' ∷ b'X' ∷ []) (c ∷ rest) in
    let bin =
      starts_with (b'0' ∷ b'b' ∷ []) (c ∷ rest) || starts_with (b'0' ∷ b'B' ∷ []) (c ∷ rest) in
    elim (Bool-cases hex) [
      | inl e ↦ rw e (
          prefixed_fits line index hi empty_hex_int (λ d. is_hex_digit d || (d == b'_')) (c ∷ rest)
            (prefix_le b'0' b'x' b'0' b'X' (c ∷ rest) e) h)
      | inr e ↦ elim (Bool-cases bin) [
        | inl e' ↦
            rw (e, e')
              (prefixed_fits line index hi empty_binary_int is_binary_digit (c ∷ rest)
                (prefix_le b'0' b'b' b'0' b'B' (c ∷ rest) e') h)
        | inr e' ↦ rw (e, e') (decimal_int_fits index hi c rest digit h)
      ]
    ]

word_round_fits :
    (index hi c : ℕ) (rest : List ℕ)
    → hi ≡ index + length (c ∷ rest)
    → RoundFits index hi (word_round index c rest)
unfolding word_round
word_round_fits index hi c rest h =
    let le = count_while_le is_ident_cont rest in (omega arith, omega arith)

literal_round_fits :
    (line index hi c : ℕ) (rest : List ℕ)
    → hi ≡ index + length (c ∷ rest)
    → RoundFits index hi (literal_round line index c rest)
unfolding literal_round
literal_round_fits line index hi c rest h = elim (Bool-cases (c == 0x22)) [
  | inl e ↦ rw e (
      string_round_fits index hi Token.string_lit _
        (lex_string_fits line index index hi rest (omega arith) (omega arith)))
  | inr e ↦ elim (Bool-cases (starts_with (b'b' ∷ 0x22 ∷ []) (c ∷ rest))) [
    | inl e' ↦
        let two = starts_with_le (b'b' ∷ 0x22 ∷ []) (c ∷ rest) e' in
        let behind = length-drop 1 rest in
        rw (e, e')
          (string_round_fits index hi Token.buffer_lit _
            (lex_string_fits line (index + 1) index hi (drop 1 rest) (omega arith) (omega arith)))
    | inr e' ↦ elim (Bool-cases (is_digit c)) [
      | inl e'' ↦ rw (e, e', e'') (int_round_fits line index hi c rest e'' h)
      | inr e'' ↦ elim (Bool-cases (is_ident_start c)) [
        | inl word ↦ rw (e, e', e'', word) (word_round_fits index hi c rest h)
        | inr other ↦
            rw (e, e', e'', other)
              (error_fits line index (index + 1) hi unexpected_character (omega arith)
                (omega arith))
      ]
    ]
  ]
]

operators_nonempty : All (λ (entry : List ℕ × Token). 1 ≤ length entry.0) operators
operators_nonempty = omega arith

pub lex_round_fits :
    (line index hi c : ℕ) (rest : List ℕ)
    → hi ≡ index + length (c ∷ rest)
    → RoundFits index hi (lex_round line index c rest)
unfolding lex_round operator_round
lex_round_fits line index hi c rest h = elim (Bool-cases (c == 0x0a)) [
  | inl e ↦ rw e tt
  | inr e ↦ elim (Bool-cases ((c == 0x20) || ((c == 0x09) || (c == 0x0d)))) [
    | inl e' ↦ rw (e, e') (omega arith, omega arith)
    | inr e' ↦ elim (Bool-cases (starts_with (b'/' ∷ b'/' ∷ []) (c ∷ rest))) [
      | inl e'' ↦
          let two = starts_with_le (b'/' ∷ b'/' ∷ []) (c ∷ rest) e'' in
          let behind = length-drop 1 rest in
          let le = count_while_le (λ d. not (d == 0x0a)) (drop 1 rest) in
          rw (e, e', e'') (omega arith, omega arith)
      | inr e'' ↦ elim (Option-cases (find_operator operators (c ∷ rest))) [
        | inl other ↦ rw (e, e', e'', other) (literal_round_fits line index hi c rest h)
        | inr ((n, t), found) ↦
            let (one, le) = find_operator_fits operators (c ∷ rest) n t operators_nonempty found in
            rw (e, e', e'', found) (omega arith, omega arith)
      ]
    ]
  ]
]
