-- ===== src/Ir/Panics.antt =====
-- Where the folding of constants panics.
use neo_lang.Prelude.{
  ℕ, ◌≡◌, refl, ap, ◌∙◌, inl, inr, none, some, List, [], ◌∷◌, ◌++◌, Option-cases,
}
use neo_lang.Prelude.Int.{ℤ, pos}
use neo_lang.Ast.{BinaryOp, Literal}
use neo_lang.Ir.{ValueRef, Instr, BasicBlock, FunctionIr}
use neo_lang.Ir.Fold.{
  parse_i64, quotient, div_result, arith_fold, fold_ints, fold_binary, fold_operands, replaced,
  Build, panicked, constants, as_const_ref, fold_instr, fold_instrs, const_fold_block,
  const_fold_blocks, const_fold,
}

-- The block divides a constant by a constant, both of them texts that read as an i64, the divisor as
-- zero.
pub record DividesByZero (bb : BasicBlock) : Type 0 where
  pub before : List (ℕ × Instr)
  pub behind : List (ℕ × Instr)
  pub out : ℕ
  pub left : ValueRef
  pub right : ValueRef
  pub dividend : List ℕ
  pub divisor : List ℕ
  pub number : ℤ
  pub stands : bb.instrs ≡ before ++ ((out, Instr.binary BinaryOp.div left right) ∷ behind)
  pub left_is : as_const_ref (constants [] bb.instrs) left ≡ some (Literal.int dividend)
  pub right_is : as_const_ref (constants [] bb.instrs) right ≡ some (Literal.int divisor)
  pub dividend_is : parse_i64 dividend ≡ some number
  pub divisor_is : parse_i64 divisor ≡ some (pos 0)

fold_binary_panics :
    (build : Build) (s t : List ℕ) (x : ℤ)
    → parse_i64 s ≡ some x
    → parse_i64 t ≡ some (pos 0)
    → fold_binary build BinaryOp.div (Literal.int s) (Literal.int t) ≡ panicked
unfolding fold_binary fold_ints arith_fold div_result quotient
fold_binary_panics build s t x left right = rw (left, right) refl

fold_instrs_panics :
    (build : Build) (consts : List (ℕ × Literal)) (before behind : List (ℕ × Instr)) (out : ℕ)
    (instr : Instr)
    → fold_instr build consts instr ≡ none
    → fold_instrs build consts (before ++ ((out, instr) ∷ behind)) ≡ none
unfolding fold_instrs
fold_instrs_panics build consts [] behind out instr h = rw h refl
fold_instrs_panics build consts ((o, i) ∷ before) behind out instr h =
    let rest = fold_instrs_panics build consts before behind out instr h in
    elim (Option-cases (fold_instr build consts i)) [
      | inl e ↦ rw e refl
      | inr (new, e) ↦ rw e (rw rest refl)
    ]

fold_instr_panics :
    (build : Build) (consts : List (ℕ × Literal)) (left right : ValueRef) (s t : List ℕ) (x : ℤ)
    → as_const_ref consts left ≡ some (Literal.int s)
    → as_const_ref consts right ≡ some (Literal.int t)
    → parse_i64 s ≡ some x
    → parse_i64 t ≡ some (pos 0)
    → fold_instr build consts (Instr.binary BinaryOp.div left right) ≡ none
unfolding fold_instr fold_operands replaced
fold_instr_panics build consts left right s t x l r number zero_ =
    rw (l, r) (rw (fold_binary_panics build s t x number zero_) refl)

const_fold_block_panics :
    (build : Build) (bb : BasicBlock) → DividesByZero bb → const_fold_block build bb ≡ none
unfolding const_fold_block
const_fold_block_panics build bb d =
    let consts = constants [] bb.instrs in
    let instr_panics =
      fold_instr_panics build consts d.left d.right d.dividend d.divisor d.number d.left_is
        d.right_is d.dividend_is d.divisor_is in
    let all : fold_instrs build consts bb.instrs ≡ none =
      ap (fold_instrs build consts) d.stands
      ∙ fold_instrs_panics build consts d.before d.behind d.out _ instr_panics in
    rw all refl

const_fold_blocks_panics :
    (build : Build) (front back : List (ℕ × BasicBlock)) (id : ℕ) (bb : BasicBlock)
    → const_fold_block build bb ≡ none
    → const_fold_blocks build (front ++ ((id, bb) ∷ back)) ≡ none
unfolding const_fold_blocks
const_fold_blocks_panics build [] back id bb h = rw h refl
const_fold_blocks_panics build ((k, b) ∷ front) back id bb h =
    let rest = const_fold_blocks_panics build front back id bb h in
    elim (Option-cases (const_fold_block build b)) [
      | inl e ↦ rw e refl
      | inr (new, e) ↦ rw e (rw rest refl)
    ]

-- Folding the constants of a function panics, with overflow checks or without, where a block of it
-- divides an integer constant by another one, both of them decimal texts that read as an i64, the
-- divisor as zero.
pub const_fold_panics :
    (build : Build) (fir : FunctionIr) (front back : List (ℕ × BasicBlock)) (id : ℕ)
    (bb : BasicBlock)
    → fir.blocks ≡ front ++ ((id, bb) ∷ back)
    → DividesByZero bb
    → const_fold build fir ≡ none
unfolding const_fold
const_fold_panics build fir front back id bb stands d =
    rw
      (stands, const_fold_blocks_panics build front back id bb (const_fold_block_panics build bb d))
      refl
