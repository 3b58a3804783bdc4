-- ===== src/Lexer/Bounds.antt =====
-- Where a round of the lexer leaves its index, and where its errors point.
use neo_lang.Prelude.{
  ◌⊎◌, ℕ, zero, suc, ◌+◌, ◌-◌, ◌≤◌, ◌≡◌, refl, Bool, true, false, ◌||◌, Option, none, some, List,
  [], ◌∷◌, ◌++◌, ◌==◌, length, drop, length-drop, All, Result, ok, err, ◌>>=◌, Bool-cases, inl, inr,
  arith,
}
use neo_lang.Lexer.Words.{Token}
use neo_lang.Lexer.{
  LexMessage, LexError, lex_error, count_while, starts_with, find_operator, hex_byte, hex_escape,
  simple_escape, letter_escape, escape, scan_string, lex_string, Round, newline, blank, token,
  fails, string_round, prefixed_int,
}

-- The span of an error lies in the source, whose length is `hi`.
abbrev pub ErrorFits : ℕ → LexError → Type 0
ErrorFits hi e = (e.span.start ≤ e.span.end) × (e.span.end ≤ hi)

abbrev pub Reaches : {A : Type 0} → ℕ → ℕ → Result LexError (A × ℕ) → Type 0
Reaches lo hi (ok (a, next)) = (lo ≤ next) × (next ≤ hi)
Reaches lo hi (err e) = ErrorFits hi e

pub error_fits :
    (line start end hi : ℕ) (message : LexMessage)
    → start ≤ end
    → end ≤ hi
    → ErrorFits hi (lex_error line message start end)
unfolding lex_error
error_fits line start end hi message h k = (h, k)

pub count_while_le : (test : ℕ → Bool) (rest : List ℕ) → count_while test rest ≤ length rest
unfolding count_while
count_while_le test [] = omega arith
count_while_le test (c ∷ rest) =
    let ih = count_while_le test rest in
    elim (Bool-cases (test c)) [ inl e ↦ rw e (omega (arith, ih)) | inr e ↦ rw e (omega arith) ]

pub starts_with_le :
    (prefix rest : List ℕ) → starts_with prefix rest ≡ true → length prefix ≤ length rest
unfolding starts_with
starts_with_le [] rest h = omega arith
starts_with_le (p ∷ prefix) [] h = absurd (cc)
starts_with_le (p ∷ prefix) (c ∷ rest) h = elim (Bool-cases (p == c)) [
  | inl e ↦ let h' = rw e at h in omega (arith, starts_with_le prefix rest h')
  | inr e ↦ let h' = rw e at h in absurd (cc)
]

pub find_operator_fits :
    (table : List (List ℕ × Token)) (rest : List ℕ) (n : ℕ) (t : Token)
    → All (λ (entry : List ℕ × Token). 1 ≤ length entry.0) table
    → find_operator table rest ≡ some (n, t)
    → (1 ≤ n) × (n ≤ length rest)
unfolding find_operator
find_operator_fits [] rest n t some_text h = absurd (cc)
find_operator_fits ((text, u) ∷ table) rest n t (one, more) h =
    elim (Bool-cases (starts_with text rest)) [
      | inl e ↦
          let h' = rw e at h in
          let same : length text ≡ n = cc in
          let le = starts_with_le text rest e in (omega arith, omega arith)
      | inr e ↦ find_operator_fits table rest n t more (rw e at h)
    ]

hex_byte_fits :
    (line index hi : ℕ) (a b : Option ℕ)
    → index + 4 ≤ hi
    → Reaches (index + 2) hi (hex_byte line index a b)
unfolding hex_byte lex_error
hex_byte_fits line index hi (some a) (some b) h = (omega arith, omega arith)
hex_byte_fits line index hi (some a) none h = (omega arith, omega arith)
hex_byte_fits line index hi none b h = (omega arith, omega arith)

hex_escape_fits :
    (line index hi : ℕ) (rest : List ℕ)
    → hi ≡ index + 2 + length rest
    → Reaches (index + 2) hi (hex_escape line index rest)
unfolding hex_escape lex_error
hex_escape_fits line index hi [] h = (omega arith, omega arith)
hex_escape_fits line index hi (b ∷ []) h = (omega arith, omega arith)
hex_escape_fits line index hi (b ∷ c ∷ rest) h = hex_byte_fits line index hi _ _ (omega arith)

letter_escape_fits :
    (line index b hi : ℕ) (rest : List ℕ) (char : Option ℕ)
    → hi ≡ index + 2 + length rest
    → Reaches (index + 2) hi (letter_escape line index b rest char)
unfolding letter_escape lex_error
letter_escape_fits line index b hi rest (some char) h = (omega arith, omega arith)
letter_escape_fits line index b hi rest none h = elim (Bool-cases (b == b'x')) [
  | inl e ↦ rw e (hex_escape_fits line index hi rest h)
  | inr e ↦ rw e (omega arith, omega arith)
]

escape_fits :
    (line quote_at index hi : ℕ) (rest : List ℕ)
    → quote_at ≤ index
    → hi ≡ index + 1 + length rest
    → Reaches (index + 2) hi (escape line quote_at index rest)
unfolding escape lex_error
escape_fits line quote_at index hi [] le h = (omega arith, omega arith)
escape_fits line quote_at index hi (b ∷ rest) le h =
    letter_escape_fits line index b hi rest (simple_escape b) (omega arith)

module _ {A : Type 0} where
  Reaches-weaken :
      (lo lo' hi : ℕ) (r : Result LexError (A × ℕ)) → lo' ≤ lo → Reaches lo hi r → Reaches lo' hi r
  Reaches-weaken lo lo' hi (ok (a, next)) le (low, up) = (omega arith, up)
  Reaches-weaken lo lo' hi (err e) le fits = fits

  Reaches-bind :
      (lo mid hi : ℕ) (r : Result LexError (ℕ × ℕ)) (k : ℕ → ℕ → Result LexError (A × ℕ))
      → Reaches mid hi r
      → ((char next : ℕ) → mid ≤ next → next ≤ hi → Reaches lo hi (k char next))
      → Reaches lo hi (r >>= λ (char, next). k char next)
  Reaches-bind lo mid hi (ok (char, next)) k (low, up) step = step char next low up
  Reaches-bind lo mid hi (err e) k fits step = fits

-- A string that starts behind `quote_at` ends in the source, and so does the span of its error.
pub scan_string_fits :
    (line quote_at skip index hi : ℕ) (out rest : List ℕ)
    → quote_at ≤ index
    → hi ≡ index + length rest
    → Reaches (index + 1) hi (scan_string line quote_at skip index out rest)
unfolding scan_string lex_error
scan_string_fits line quote_at skip index hi out [] le h = (omega arith, omega arith)
scan_string_fits line quote_at (suc skip) index hi out (c ∷ rest) le h =
    Reaches-weaken (index + 1 + 1) (index + 1) hi
      (scan_string line quote_at skip (index + 1) out rest) (omega arith)
      (scan_string_fits line quote_at skip (index + 1) hi out rest (omega arith) (omega arith))
scan_string_fits line quote_at zero index hi out (c ∷ rest) le h =
    let again = λ (skip : ℕ) (text : List ℕ).
      Reaches-weaken (index + 1 + 1) (index + 1) hi
        (scan_string line quote_at skip (index + 1) text rest) (omega arith)
        (scan_string_fits line quote_at skip (index + 1) hi text rest (omega arith)
          (omega arith)) in
    elim (Bool-cases (c == 0x22)) [
      | inl e ↦ rw e (omega arith, omega arith)
      | inr e ↦ elim (Bool-cases (c == 0x5c)) [
        | inr plain ↦ rw (e, plain) (again 0 (out ++ (c ∷ [])))
        | inl escaped ↦
            rw (e, escaped)
              (Reaches-bind (index + 1) (index + 2) hi (escape line quote_at index rest)
                (λ char next.
                  scan_string line quote_at (next - suc index) (index + 1) (out ++ (char ∷ []))
                    rest)
                (escape_fits line quote_at index hi rest le (omega arith))
                (λ char next low up. again (next - suc index) (out ++ (char ∷ []))))
      ]
    ]

-- A round at `index` moves behind it, up to the end of the source.
abbrev pub RoundFits : ℕ → ℕ → Round → Type 0
RoundFits index hi newline = Unit
RoundFits index hi (blank next) = (suc index ≤ next) × (next ≤ hi)
RoundFits index hi (token next t) = (suc index ≤ next) × (next ≤ hi)
RoundFits index hi (fails e) = ErrorFits hi e

pub string_round_fits :
    (index hi : ℕ) (make : List ℕ → Token) (r : Result LexError (List ℕ × ℕ))
    → Reaches (suc index) hi r
    → RoundFits index hi (string_round make r)
unfolding string_round
string_round_fits index hi make (ok (text, next)) fits = fits
string_round_fits index hi make (err e) fits = fits

pub lex_string_fits :
    (line quote_at lo hi : ℕ) (rest : List ℕ)
    → lo ≤ quote_at
    → hi ≡ quote_at + 1 + length rest
    → Reaches (suc lo) hi (lex_string line quote_at rest)
unfolding lex_string
lex_string_fits line quote_at lo hi rest le h =
    Reaches-weaken (quote_at + 1 + 1) (suc lo) hi
      (scan_string line quote_at 0 (quote_at + 1) [] rest) (omega arith)
      (scan_string_fits line quote_at 0 (quote_at + 1) hi [] rest (omega arith) (omega arith))

prefixed_int_fits :
    (line index hi n : ℕ) (message : LexMessage) (rest : List ℕ)
    → index + 2 + n ≤ hi
    → RoundFits index hi (prefixed_int line index message rest n)
unfolding prefixed_int lex_error
prefixed_int_fits line index hi zero message rest h = (omega arith, omega arith)
prefixed_int_fits line index hi (suc n) message rest h = (omega arith, omega arith)

-- The two bytes of a prefix, and the digits behind them.
pub prefixed_fits :
    (line index hi : ℕ) (message : LexMessage) (test : ℕ → Bool) (rest : List ℕ)
    → 2 ≤ length rest
    → hi ≡ index + length rest
    → RoundFits index hi (prefixed_int line index message rest (count_while test (drop 2 rest)))
prefixed_fits line index hi message test rest two h =
    prefixed_int_fits line index hi (count_while test (drop 2 rest)) message rest
      (omega (arith, count_while_le test (drop 2 rest), length-drop 2 rest))

or-cases : (a b : Bool) → (a || b) ≡ true → (a ≡ true) ⊎ (b ≡ true)
or-cases true b h = inl refl
or-cases false b h = inr h

pub prefix_le :
    (p q r s : ℕ) (rest : List ℕ)
    → (starts_with (p ∷ q ∷ []) rest || starts_with (r ∷ s ∷ []) rest) ≡ true
    → 2 ≤ length rest
prefix_le p q r s rest h = elim (or-cases _ _ h) [
  | inl e ↦ starts_with_le (p ∷ q ∷ []) rest e
  | inr e ↦ starts_with_le (r ∷ s ∷ []) rest e
]

pub count_while_first :
    (test : ℕ → Bool) (c : ℕ) (rest : List ℕ) → test c ≡ true → 1 ≤ count_while test (c ∷ rest)
unfolding count_while
count_while_first test c rest h = rw h (omega arith)
