-- ===== src/Link/Succeeds.antt =====
-- When linking succeeds.
use neo_lang.Prelude.{ℕ, ◌≡◌, ◌≢◌, some, List, [], ◌∷◌, get_elem?, length, All}
use neo_lang.Instruction.{Instruction}
use neo_lang.Peephole.Calls.{PointsAtCall}
use neo_lang.Link.{CompiledFunction, link_symbol}
use neo_lang.Link.Table.{routine_start}

-- No two functions share a symbol.
abbrev pub SymbolsDistinct : List CompiledFunction → Type 0
SymbolsDistinct [] = Unit {0}
SymbolsDistinct (f ∷ fs) = All (λ g. link_symbol f ≢ link_symbol g) fs × SymbolsDistinct fs

-- The patches of a function point at its calls, and name functions of the list.
pub record IsLinkable (fs : List CompiledFunction) (f : CompiledFunction) : Type 0 where
  pub calls : All (PointsAtCall f.instructions) f.call_patches
  pub named :
      All
        (λ p. (k : ℕ) × (g : CompiledFunction) × (get_elem? fs k ≡ some g) × (link_symbol g ≡ p.1))
        f.call_patches

-- The byte length of the script.
abbrev pub script_len : List CompiledFunction → ℕ
script_len fs = routine_start fs (length fs)

-- A function of the list whose patches can be linked.
abbrev Placed : List CompiledFunction → CompiledFunction → Type 0
Placed fs f = (k : ℕ) × (get_elem? fs k ≡ some f) × IsLinkable fs f
