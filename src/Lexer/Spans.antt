-- ===== src/Lexer/Spans.antt =====
-- The tokens' spans lie in the source, one behind the other.
use neo_lang.Prelude.{
  subst, ℕ, zero, suc, ◌+◌, ◌-◌, ◌≤◌, ◌≡◌, refl, ap, List, [], ◌∷◌, length, Result, ok, err, ◌>>=◌,
  arith,
}
use neo_lang.Diagnostics.{Span, empty}
use neo_lang.Lexer.Words.{Token}
use neo_lang.Lexer.{
  LexError, Lexed, push_token, Round, newline, blank, token, fails, lex_round, follow, lex_from,
  lex,
}
use neo_lang.Lexer.Bounds.{ErrorFits, RoundFits}
use neo_lang.Lexer.Rounds.{lex_round_fits}

-- Spans from `lo` to `hi`, each behind the one before it.
abbrev pub Tiles : ℕ → ℕ → List Span → Type 0
Tiles lo hi [] = lo ≤ hi
Tiles lo hi (s ∷ spans) = (lo ≤ s.start) × (s.start ≤ s.end) × Tiles s.end hi spans

Tiles-weaken :
    (lo lo' hi : ℕ) (spans : List Span) → lo' ≤ lo → Tiles lo hi spans → Tiles lo' hi spans
Tiles-weaken lo lo' hi [] le h = omega arith
Tiles-weaken lo lo' hi (s ∷ spans) le (a, b, rest) = (omega arith, b, rest)

-- The tokens from `lo` to `hi` with a span for each, or an error whose span ends by `hi`.
abbrev pub LexFits : ℕ → ℕ → Result LexError Lexed → Type 0
LexFits lo hi (ok lexed) =
    Tiles lo hi lexed.spans × ◌≡◌ {A = ℕ} (length lexed.tokens) (length lexed.spans)
LexFits lo hi (err e) = ErrorFits hi e

LexFits-weaken :
    (lo lo' hi : ℕ) (r : Result LexError Lexed) → lo' ≤ lo → LexFits lo hi r → LexFits lo' hi r
LexFits-weaken lo lo' hi (ok lexed) le (tiles, same) =
    (Tiles-weaken lo lo' hi lexed.spans le tiles, same)
LexFits-weaken lo lo' hi (err e) le fits = fits

LexFits-push :
    (line index next hi : ℕ) (t : Token) (r : Result LexError Lexed)
    → suc index ≤ next
    → LexFits next hi r
    → LexFits index hi
        (r >>= λ lexed. ok (push_token line t (record { start = index; end = next }) lexed))
unfolding push_token
LexFits-push line index next hi t (ok lexed) le (tiles, same) =
    ((omega arith, omega arith, tiles), ap suc same)
LexFits-push line index next hi t (err e) le fits = fits

follow_fits :
    (again : ℕ → ℕ → Result LexError Lexed) (line index hi left : ℕ) (round : Round)
    → hi ≡ index + suc left
    → ((skip line' : ℕ) → skip ≤ left → LexFits (index + 1 + skip) hi (again skip line'))
    → RoundFits index hi round
    → LexFits index hi (follow again line index round)
unfolding follow
follow_fits again line index hi left newline h step fits =
    LexFits-weaken (index + 1 + 0) index hi (again 0 (line + 1)) (omega arith)
      (step 0 (line + 1) (omega arith))
follow_fits again line index hi left (blank next) h step (low, up) =
    LexFits-weaken (index + 1 + (next - suc index)) index hi (again (next - suc index) line)
      (omega arith) (step (next - suc index) line (omega arith))
follow_fits again line index hi left (token next t) h step (low, up) =
    let there : index + 1 + (next - suc index) ≡ next = omega arith in
    LexFits-push line index next hi t (again (next - suc index) line) low (
      subst (λ (k : ℕ). LexFits k hi (again (next - suc index) line)) there
        (step (next - suc index) line (omega arith)))
follow_fits again line index hi left (fails e) h step fits = fits

lex_from_fits :
    (skip line index hi : ℕ) (rest : List ℕ)
    → skip ≤ length rest
    → hi ≡ index + length rest
    → LexFits (index + skip) hi (lex_from skip line index rest)
unfolding lex_from push_token empty
lex_from_fits skip line index hi [] le h = ((omega arith, omega arith, omega arith), refl)
lex_from_fits (suc skip) line index hi (c ∷ rest) le h =
    LexFits-weaken (index + 1 + skip) (index + suc skip) hi (lex_from skip line (index + 1) rest)
      (omega arith) (lex_from_fits skip line (index + 1) hi rest (omega arith) (omega arith))
lex_from_fits zero line index hi (c ∷ rest) le h =
    LexFits-weaken index (index + 0) hi _ (omega arith) (
      follow_fits (λ skip line'. lex_from skip line' (index + 1) rest) line index hi (length rest)
        (lex_round line index c rest) (omega arith)
        (λ skip line' few. lex_from_fits skip line' (index + 1) hi rest few (omega arith))
        (lex_round_fits line index hi c rest h))

-- The lexer gives each token a span; the spans lie in the source, each behind the one before it. The
-- span of an error lies in the source as well.
pub lex_fits : (src : List ℕ) → LexFits 0 (length src) (lex src)
unfolding lex
lex_fits src = lex_from_fits 0 1 0 (length src) src (omega arith) (omega arith)
