-- ===== src/Diagnostics/Positions.antt =====
-- The line and the column of an offset, against a walk through the source.
use neo_lang.Prelude.{
  ℕ, zero, suc, ◌+◌, ◌-◌, ◌≤◌, ◌≡◌, refl, sym, ap, ◌∙◌, none, some, List, [], ◌∷◌, ◌==◌,
  if◌then◌else◌, get_elem?, arith, inl, inr, Bool-cases, le→leb, gt→leb,
}
use neo_lang.Diagnostics.{
  Location, line_starts_from, line_starts, rposition, unwrap_or_zero, location_at, location,
}

-- Walking `count` bytes on: a line feed starts a line, every other byte is a column.
unfoldable pub walk : ℕ → ℕ → List ℕ → ℕ → Location
walk line column src zero = record { line = line; column = column }
walk line column [] (suc count) = walk line (column + 1) [] count
walk line column (byte ∷ src) (suc count) =
    if byte == 0x0a then walk (line + 1) 1 src count else walk line (column + 1) src count

-- Where the offset's line starts in a table, and what the walk finds.
abbrev Located : ℕ → List ℕ → ℕ → Location → Type 0
Located offset starts line here =
    (k : ℕ) × (start : ℕ) × (rposition offset starts ≡ some k)
    × (get_elem? starts k ≡ some start)
    × (here ≡ record { line = line + k; column = offset - start + 1 })

rposition-later :
    (index offset : ℕ) (src : List ℕ)
    → offset ≤ index
    → rposition offset (line_starts_from index src) ≡ none
unfolding rposition line_starts_from
rposition-later index offset [] le = refl
rposition-later index offset (byte ∷ src) le =
    let rest = rposition-later (index + 1) offset src (omega arith) in
    elim (Bool-cases (byte == 0x0a)) [
      | inl e ↦ rw e (rw (rest, rposition) (rw (gt→leb (index + 1) offset (omega arith)) refl))
      | inr e ↦ rw e rest
    ]

walk_past :
    (line column count : ℕ)
    → walk line column [] count ≡ record { line = line; column = column + count }
unfolding walk
walk_past line column zero = ap (λ c. record { line = line; column = c }) (omega arith)
walk_past line column (suc count) =
    walk_past line (column + 1) count ∙ ap (λ c. record { line = line; column = c }) (omega arith)

module _ (line first index offset column : ℕ) (le : first ≤ index) where
  at_first :
      (rest : List ℕ) (here : Location)
      → rposition offset rest ≡ none
      → first ≤ offset
      → here ≡ record { line = line; column = offset - first + 1 }
      → Located offset (first ∷ rest) line here
  unfolding rposition
  at_first rest here later inside h = (
    0,
    first,
    rw (later, rposition) (rw (le→leb first offset inside) refl),
    refl,
    h ∙ ap (λ l. record { line = l; column = offset - first + 1 }) (omega arith),
  )

rposition-next :
    (offset first : ℕ) (starts : List ℕ) (k : ℕ)
    → rposition offset starts ≡ some k
    → rposition offset (first ∷ starts) ≡ some (suc k)
unfolding rposition
rposition-next offset first starts k h = rw (h, rposition) refl

walk-Located :
    (src : List ℕ) (line first index offset column count : ℕ)
    → first ≤ index
    → column ≡ index - first + 1
    → offset ≡ index + count
    → Located offset (first ∷ line_starts_from index src) line (walk line column src count)
unfolding walk line_starts_from
walk-Located [] line first index offset column count le col off =
    at_first line first index offset column le [] _ (unfold rposition in refl) (omega arith)
      (walk_past line column count ∙ ap (λ c. record { line = line; column = c }) (omega arith))
walk-Located (byte ∷ src) line first index offset column zero le col off =
    at_first line first index offset column le _ _
      (rposition-later index offset (byte ∷ src) (omega arith)) (omega arith)
      (ap (λ c. record { line = line; column = c }) (omega arith))
walk-Located (byte ∷ src) line first index offset column (suc count) le col off =
    elim (Bool-cases (byte == 0x0a)) [
      | inl e ↦
          let (k, start, found, at, here) =
            walk-Located src (line + 1) (index + 1) (index + 1) offset 1 count (omega arith)
              (omega arith) (omega arith) in
          rw e (
            (
              suc k,
              start,
              rposition-next offset first ((index + 1) ∷ line_starts_from (index + 1) src) k found,
              at,
              here ∙ ap (λ l. record { line = l; column = offset - start + 1 }) (omega arith),
            ))
      | inr e ↦ rw e (
          walk-Located src line first (index + 1) offset (column + 1) count (omega arith)
            (omega arith) (omega arith))
    ]

-- The source map gives each offset the line and the column that a walk from the first byte reaches,
-- also for an offset behind the end.
pub location-walk :
    (src : List ℕ) (offset : ℕ) → location (line_starts src) offset ≡ some (walk 1 1 src offset)
unfolding location line_starts unwrap_or_zero location_at
location-walk src offset =
    let (k, start, found, at, here) =
      walk-Located src 1 0 0 offset 1 offset (omega arith) (omega arith) (omega arith) in
    rw found (
      rw at (
        ap some
          (ap (λ l. record { line = l; column = offset - start + 1 }) (omega arith) ∙ sym here)))
