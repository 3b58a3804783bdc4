-- ===== src/Lexer/Reads.antt =====
-- The tokens of a source are written in it.
use neo_lang.Prelude.{
  subst, ℕ, zero, suc, ◌+◌, ◌-◌, ◌≡◌, refl, ap, List, [], ◌∷◌, take, drop, Result, ok, err, ◌>>=◌,
  arith,
}
use neo_lang.Diagnostics.{Span, empty}
use neo_lang.Lexer.Words.{Token}
use neo_lang.Lexer.{
  LexError, Lexed, push_token, Round, newline, blank, token, fails, lex_round, follow, lex_from,
  lex,
}
use neo_lang.Lexer.Spelling.{Spells}
use neo_lang.Lexer.Texts.{IsWritten, IsWritten-lex_round}

-- The bytes of the source under a span.
abbrev pub text_of : List ℕ → Span → List ℕ
text_of src span = take (span.end - span.start) (drop span.start src)

-- Each token is written under its span.
abbrev pub AllWritten : List ℕ → List (ℕ × Token) → List Span → Type 0
AllWritten src [] [] = Unit
AllWritten src ((line, t) ∷ tokens) (span ∷ spans) =
    Spells t (text_of src span) × AllWritten src tokens spans
AllWritten src _ _ = ⊥

abbrev ReadsFrom : List ℕ → Result LexError Lexed → Type 0
ReadsFrom src (ok lexed) = AllWritten src lexed.tokens lexed.spans
ReadsFrom src (err e) = Unit

drop_tail :
    (index c : ℕ) (src rest : List ℕ) → drop index src ≡ c ∷ rest → drop (suc index) src ≡ rest
drop_tail zero c [] rest h = absurd (cc)
drop_tail zero c (b ∷ src) rest h = cc
drop_tail (suc index) c [] rest h = absurd (cc)
drop_tail (suc index) c (b ∷ src) rest h = drop_tail index c src rest h

drop-suc :
    (index c : ℕ) (src rest : List ℕ) → drop index src ≡ c ∷ rest → drop (index + 1) src ≡ rest
drop-suc index c src rest h =
    let same : suc index ≡ index + 1 = omega arith in
    subst (λ (k : ℕ). drop k src ≡ rest) same (drop_tail index c src rest h)

ReadsFrom-push :
    (src : List ℕ) (line index next : ℕ) (t : Token) (r : Result LexError Lexed)
    → Spells t (take (next - index) (drop index src))
    → ReadsFrom src r
    → ReadsFrom src
        (r >>= λ lexed. ok (push_token line t (record { start = index; end = next }) lexed))
unfolding push_token
ReadsFrom-push src line index next t (ok lexed) spelled reads = (spelled, reads)
ReadsFrom-push src line index next t (err e) spelled reads = tt

ReadsFrom-follow :
    (src : List ℕ) (again : ℕ → ℕ → Result LexError Lexed) (line index : ℕ) (round : Round)
    → ((skip line' : ℕ) → ReadsFrom src (again skip line'))
    → IsWritten index (drop index src) round
    → ReadsFrom src (follow again line index round)
unfolding follow
ReadsFrom-follow src again line index newline step written = step 0 (line + 1)
ReadsFrom-follow src again line index (blank next) step written = step (next - suc index) line
ReadsFrom-follow src again line index (token next t) step written =
    ReadsFrom-push src line index next t (again (next - suc index) line) written
      (step (next - suc index) line)
ReadsFrom-follow src again line index (fails e) step written = tt

ReadsFrom-lex_from :
    (src : List ℕ) (skip line index : ℕ) (rest : List ℕ)
    → drop index src ≡ rest
    → ReadsFrom src (lex_from skip line index rest)
unfolding lex_from push_token empty
ReadsFrom-lex_from src skip line index [] stands =
    let none_left : index - index ≡ 0 = omega arith in
    (ap (λ (k : ℕ). take k (drop index src)) none_left, tt)
ReadsFrom-lex_from src (suc skip) line index (c ∷ rest) stands =
    ReadsFrom-lex_from src skip line (index + 1) rest (drop-suc index c src rest stands)
ReadsFrom-lex_from src zero line index (c ∷ rest) stands =
    ReadsFrom-follow src (λ skip line'. lex_from skip line' (index + 1) rest) line index
      (lex_round line index c rest)
      (λ skip line'.
        ReadsFrom-lex_from src skip line' (index + 1) rest (drop-suc index c src rest stands))
      (rw stands (IsWritten-lex_round line index c rest))

-- Where the lexer succeeds, each token is written under its span in the source: an operator and a
-- keyword by its text, a name and an integer by what the token holds, a string by its first quote,
-- and the end by nothing.
pub lex-AllWritten :
    (src : List ℕ) (lexed : Lexed) → lex src ≡ ok lexed → AllWritten src lexed.tokens lexed.spans
unfolding lex
lex-AllWritten src lexed h = subst (ReadsFrom src) h (ReadsFrom-lex_from src 0 1 0 src refl)
