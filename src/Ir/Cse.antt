-- ===== src/Ir/Cse.antt =====
-- The elimination of common subexpressions, and the passes in their order (neo-compiler/src/ir/
-- opt.rs). Maps are association lists in which the first match counts.
use neo_lang.Prelude.{ℕ, Option, none, some, List, [], ◌∷◌, if◌then◌else◌, ◌>>=?◌}
use neo_lang.Ir.{ValueRef, value, Instr, BasicBlock, FunctionIr, has_side_effects}
use neo_lang.Ir.Rewrite.{rewrite, map_refs}
use neo_lang.Ir.Passes.{rewrite_block, map_blocks, copy_prop, dead_code_elimination}
use neo_lang.Ir.Keys.{PureKey, same_key, pure_key}
use neo_lang.Ir.Fold.{Build, const_fold}

unfoldable pub find_key : List (PureKey × ValueRef) → PureKey → Option ValueRef
find_key [] k = none
find_key ((k', v) ∷ table) k = if same_key k' k then some v else find_key table k

-- What an instruction leaves: itself, changed, and the two maps.
pub record Numbering : Type 0 where
  pub instr : Instr
  pub table : List (PureKey × ValueRef)
  pub replacements : List (ℕ × ValueRef)

unfoldable pub number_found :
    List (PureKey × ValueRef)
    → List (ℕ × ValueRef)
    → ℕ
    → Instr
    → PureKey
    → Option ValueRef
    → Numbering
number_found table replacements out instr k (some existing) = record {
  instr = Instr.copy existing;
  table = table;
  replacements = (out, existing) ∷ replacements;
}
number_found table replacements out instr k none = record {
  instr = instr;
  table = (k, value out) ∷ table;
  replacements = replacements;
}

-- `instr` is the instruction as it stands, `normal` the one with normal references.
unfoldable pub number_keyed :
    List (PureKey × ValueRef) → List (ℕ × ValueRef) → ℕ → Instr → Instr → Option PureKey → Numbering
number_keyed table replacements out instr normal (some k) =
    number_found table replacements out normal k (find_key table k)
number_keyed table replacements out instr normal none = record {
  instr = instr;
  table = table;
  replacements = replacements;
}

-- `norm` looks a value up as `rewrite` does.
unfoldable pub number_instr :
    List (PureKey × ValueRef) → List (ℕ × ValueRef) → ℕ → Instr → Numbering
number_instr table replacements out instr =
    let normal = map_refs (rewrite replacements) instr in
    if has_side_effects instr
    then record { instr = instr; table = table; replacements = replacements }
    else number_keyed table replacements out instr normal (pure_key normal)

unfoldable pub number_instrs :
    List (PureKey × ValueRef)
    → List (ℕ × ValueRef)
    → List (ℕ × Instr)
    → List (ℕ × Instr) × List (ℕ × ValueRef)
number_instrs table replacements [] = ([], replacements)
number_instrs table replacements ((out, instr) ∷ rest) =
    let n = number_instr table replacements out instr in
    let (instrs, final) = number_instrs n.table n.replacements rest in
    ((out, n.instr) ∷ instrs, final)

unfoldable pub cse_block : BasicBlock → BasicBlock
cse_block bb =
    let (instrs, replacements) = number_instrs [] [] bb.instrs in
    rewrite_block replacements (record bb { instrs = instrs })

unfoldable pub comm_subexpr_elimination : FunctionIr → FunctionIr
comm_subexpr_elimination fir = record fir { blocks = map_blocks cse_block fir.blocks }

-- The passes in their order; `none` is a panic of the first one, as the last one ends.
unfoldable pub optimize_ir : Build → FunctionIr → Option FunctionIr
optimize_ir build fir = const_fold build fir >>=? λ folded.
    dead_code_elimination (comm_subexpr_elimination (copy_prop folded))
