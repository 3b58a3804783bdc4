-- ===== src/Ir/Passes.antt =====
-- Copy propagation and the elimination of dead code (neo-compiler/src/ir/opt.rs). Sets and queues
-- are lists, hash maps are association lists in which the first match counts.
use neo_lang.Prelude.{
  ℕ, zero, suc, ◌+◌, Bool, false, Option, none, some, List, [], ◌∷◌, ◌++◌, ◌==◌, ◌||◌,
  if◌then◌else◌, length,
}
use neo_lang.Ir.{Instr, BasicBlock, FunctionIr, ValueRef, must_keep_even_if_unused}
use neo_lang.Ir.Uses.{collect_uses_in_instr, collect_uses_in_term}
use neo_lang.Ir.Rewrite.{rewrite_value_refs_in_instr, rewrite_value_refs_in_term}

-- The loop that collects the copies of a block: a later entry is in front.
unfoldable pub copies : List (ℕ × ValueRef) → List (ℕ × Instr) → List (ℕ × ValueRef)
copies subst [] = subst
copies subst ((out, Instr.copy v) ∷ rest) = copies ((out, v) ∷ subst) rest
copies subst ((out, _) ∷ rest) = copies subst rest

unfoldable pub rewrite_instrs : List (ℕ × ValueRef) → List (ℕ × Instr) → List (ℕ × Instr)
rewrite_instrs subst [] = []
rewrite_instrs subst ((out, instr) ∷ rest) =
    (out, rewrite_value_refs_in_instr subst instr) ∷ rewrite_instrs subst rest

unfoldable pub rewrite_block : List (ℕ × ValueRef) → BasicBlock → BasicBlock
rewrite_block [] bb = bb
rewrite_block (entry ∷ subst) bb = record bb {
  instrs = rewrite_instrs (entry ∷ subst) bb.instrs;
  term = rewrite_value_refs_in_term (entry ∷ subst) bb.term;
}

unfoldable pub copy_prop_block : BasicBlock → BasicBlock
copy_prop_block bb = rewrite_block (copies [] bb.instrs) bb

-- `for bb in self.blocks.values_mut()`.
unfoldable pub map_blocks :
    (BasicBlock → BasicBlock) → List (ℕ × BasicBlock) → List (ℕ × BasicBlock)
map_blocks f [] = []
map_blocks f ((id, bb) ∷ blocks) = (id, f bb) ∷ map_blocks f blocks

unfoldable pub copy_prop : FunctionIr → FunctionIr
copy_prop fir = record fir { blocks = map_blocks copy_prop_block fir.blocks }

unfoldable pub contains : List ℕ → ℕ → Bool
contains [] v = false
contains (x ∷ used) v = (x == v) || contains used v

-- The instructions of all the blocks, in order.
unfoldable pub all_instrs : List (ℕ × BasicBlock) → List (ℕ × Instr)
all_instrs [] = []
all_instrs ((id, bb) ∷ blocks) = bb.instrs ++ all_instrs blocks

-- The map of definitions: a later definition of a value replaces an earlier one.
unfoldable pub def_of : List (ℕ × Instr) → ℕ → Option Instr
def_of [] v = none
def_of ((out, instr) ∷ rest) v = elim (def_of rest v) [
  | some later ↦ some later
  | none ↦ if out == v then some instr else none
]

unfoldable pub term_roots : List (ℕ × BasicBlock) → List ℕ
term_roots [] = []
term_roots ((id, bb) ∷ blocks) = collect_uses_in_term bb.term ++ term_roots blocks

unfoldable pub instr_roots : List (ℕ × Instr) → List ℕ
instr_roots [] = []
instr_roots ((out, instr) ∷ rest) =
    (if must_keep_even_if_unused instr then collect_uses_in_instr instr else []) ++ instr_roots rest

unfoldable pub uses_of : Option Instr → List ℕ
uses_of none = []
uses_of (some instr) = collect_uses_in_instr instr

-- The loop over the queue, on fuel; `none` is a loop that is still running.
unfoldable pub mark : ℕ → List (ℕ × Instr) → List ℕ → List ℕ → Option (List ℕ)
mark fuel defs used [] = some used
mark zero defs used (v ∷ work) = none
mark (suc fuel) defs used (v ∷ work) =
    let skip = mark fuel defs used work in
    let expand = mark fuel defs (v ∷ used) (work ++ uses_of (def_of defs v)) in
    if contains used v then skip else expand

unfoldable pub retain : List ℕ → List (ℕ × Instr) → List (ℕ × Instr)
retain used [] = []
retain used ((out, instr) ∷ rest) =
    if must_keep_even_if_unused instr || contains used out
    then (out, instr) ∷ retain used rest
    else retain used rest

unfoldable pub retain_block : List ℕ → BasicBlock → BasicBlock
retain_block used bb = record bb { instrs = retain used bb.instrs }

unfoldable pub total_uses : List (ℕ × Instr) → ℕ
total_uses [] = 0
total_uses ((out, instr) ∷ rest) = length (collect_uses_in_instr instr) + total_uses rest

unfoldable pub roots : FunctionIr → List ℕ
roots fir = term_roots fir.blocks ++ instr_roots (all_instrs fir.blocks)

-- The values that are used; the fuel is enough for each value to be expanded once.
unfoldable pub used_values : FunctionIr → Option (List ℕ)
used_values fir =
    mark (length (roots fir) + total_uses (all_instrs fir.blocks)) (all_instrs fir.blocks) []
      (roots fir)

unfoldable pub retain_blocks : FunctionIr → Option (List ℕ) → Option FunctionIr
retain_blocks fir none = none
retain_blocks fir (some used) =
    some (record fir { blocks = map_blocks (retain_block used) fir.blocks })

unfoldable pub dead_code_elimination : FunctionIr → Option FunctionIr
dead_code_elimination fir = retain_blocks fir (used_values fir)
