-- ===== src/Diagnostics.antt =====
-- Spans and the source map (neo-compiler/src/diagnostic/mod.rs). A source is its bytes; the lines'
-- text and the rendering of a diagnostic are left out.
pub mod Positions
use neo_lang.Prelude.{
  ℕ, zero, suc, ◌+◌, ◌-◌, min, Bool, Option, none, some, List, [], ◌∷◌, ◌==◌, leb, if◌then◌else◌,
  get_elem?,
}

pub record Span : Type 0 where
  pub start : ℕ
  pub end : ℕ

abbrev pub max : ℕ → ℕ → ℕ
max a b = if leb a b then b else a

unfoldable pub empty : ℕ → Span
empty pos = record { start = pos; end = pos }

unfoldable pub merge : Span → Span → Span
merge a b = record { start = min a.start b.start; end = max a.end b.end }

pub record Location : Type 0 where
  pub line : ℕ
  pub column : ℕ

-- The loop of `SourceMap::new` from the byte at `index` on: a line starts behind each line feed.
unfoldable pub line_starts_from : ℕ → List ℕ → List ℕ
line_starts_from index [] = []
line_starts_from index (byte ∷ src) =
    let rest = line_starts_from (index + 1) src in if byte == 0x0a then (index + 1) ∷ rest else rest

unfoldable pub line_starts : List ℕ → List ℕ
line_starts src = 0 ∷ line_starts_from 0 src

-- The last index whose line starts at or before the offset.
unfoldable pub rposition : ℕ → List ℕ → Option ℕ
rposition offset [] = none
rposition offset (start ∷ starts) = elim (rposition offset starts) [
  | some k ↦ some (suc k)
  | none ↦ if leb start offset then some 0 else none
]

unfoldable pub unwrap_or_zero : Option ℕ → ℕ
unwrap_or_zero none = 0
unwrap_or_zero (some k) = k

-- `none` is the panic of the index. The start is at most the offset, as the first one is 0.
unfoldable pub location_at : ℕ → ℕ → Option ℕ → Option Location
location_at offset line_index none = none
location_at offset line_index (some start) =
    some (record { line = line_index + 1; column = offset - start + 1 })

unfoldable pub location : List ℕ → ℕ → Option Location
location starts offset =
    let line_index = unwrap_or_zero (rposition offset starts) in
    location_at offset line_index (get_elem? starts line_index)
