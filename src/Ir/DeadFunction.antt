-- ===== src/Ir/DeadFunction.antt =====
-- The elimination of dead code of a whole function.
use neo_lang.Prelude.{ℕ, ◌≡◌, Bool, Option, some, List, All}
use neo_lang.Ir.{Instr, BasicBlock, FunctionIr}
use neo_lang.Ir.Uses.{collect_uses_in_term}
use neo_lang.Ir.Passes.{def_of, all_instrs}
use neo_lang.Ir.Meaning.{Env, Machine}
use neo_lang.Ir.DeadCode.{IsClosed, Covers}
use neo_lang.Ir.DeadBlocks.{IsQuiet, Agrees, IsKept}

-- Every value of the function has one definition.
abbrev pub HasSingleDefs : FunctionIr → Type 0
HasSingleDefs fir =
    All (λ (entry : ℕ × Instr). def_of (all_instrs fir.blocks) entry.0 ≡ some entry.1)
      (all_instrs fir.blocks)

module _ (defs : List (ℕ × Instr)) (marked : List ℕ) where
  abbrev IsKeptBlock : BasicBlock → Type 0
  IsKeptBlock bb = IsKept defs marked bb.instrs × Covers marked (collect_uses_in_term bb.term)

module _ {V S : Type 0} (perform : Machine V S) (truth : V → Bool) (quiet : IsQuiet perform)
    (defs : List (ℕ × Instr)) (marked : List ℕ) (closed : IsClosed defs marked) where
  abbrev Follows :
      (ℕ → Env V → S → Option (List V × S)) → (ℕ → Env V → S → Option (List V × S)) → Type 0
  Follows again again' =
      (id : ℕ) (env env' : Env V) (s s' : S) (vs : List V)
      → Agrees marked env env'
      → again id env s ≡ some (vs, s')
      → again' id env' s ≡ some (vs, s')
