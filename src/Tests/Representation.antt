-- ===== src/Tests/Representation.antt =====
-- Concrete inputs of the theorems on the intermediate representation, and small runs of its passes.
use neo_lang.Prelude.{none, ℕ, suc, ◌≡◌, refl, Bool, some, [], ◌∷◌, ltb, length}
use neo_lang.Prelude.Int.{pos}
use neo_lang.Lexer.{is_digit, between}
use neo_lang.Ir.Fold.{
  wrapping, parse_i64, parse_nat, parse_digits, in_range, i64_half, constants, as_const_ref,
  find_const, const_fold,
}
use neo_lang.Ir.Cse.{cse_block}
use neo_lang.Ir.Stale.{sizes, exit_of, cse_block-stale}
use neo_lang.Ir.Panics.{DividesByZero, const_fold_panics}
use neo_lang.Ast.{Literal, BinaryOp}
use neo_lang.Ir.{value, param, Instr, Terminator, BasicBlock, FunctionIr}
use neo_lang.Ir.Meaning.{Env, Machine}

-- A machine that counts the notifications.
toy : Machine ℕ ℕ
toy (Instr.emit _ _) vs s = some (0, suc s)
toy (Instr.const _) vs s = some (5, s)
toy _ vs s = some (length vs, s)

abbrev entry_block : BasicBlock
entry_block = record {
  params = [];
  instrs =
      (0, Instr.const Literal.null)
      ∷ (1, Instr.copy (value 0))
      ∷ (2, Instr.size (value 1))
      ∷ (3, Instr.emit [] (value 1 ∷ []))
      ∷ [];
  term = Terminator.jump 1 (value 1 ∷ []);
}

abbrev last_block : BasicBlock
last_block = record { params = []; instrs = []; term = Terminator.return_ (some (param 0)) }

abbrev sample : FunctionIr
sample = record { entry = 0; blocks = (0, entry_block) ∷ (1, last_block) ∷ []; value_count = 4 }

abbrev lean : FunctionIr
lean = record sample {
  blocks =
      (
        0,
        record entry_block {
          instrs =
              (0, Instr.const Literal.null)
              ∷ (1, Instr.copy (value 0))
              ∷ (3, Instr.emit [] (value 1 ∷ []))
              ∷ [];
        },
      )
      ∷ (1, last_block)
      ∷ [];
}

abbrev zeros : Env ℕ
zeros r = 0

abbrev truth : ℕ → Bool
truth n = ltb 0 n

-- `return 1 / 0;`.
abbrev dividing_block : BasicBlock
dividing_block = record {
  params = [];
  instrs =
      (0, Instr.const (Literal.int (b'1' ∷ [])))
      ∷ (1, Instr.const (Literal.int (b'0' ∷ [])))
      ∷ (2, Instr.binary BinaryOp.div (value 0) (value 1))
      ∷ [];
  term = Terminator.return_ (some (value 2));
}

abbrev dividing : FunctionIr
dividing = record { entry = 0; blocks = (0, dividing_block) ∷ []; value_count = 3 }

dividing_block-DividesByZero : DividesByZero dividing_block
unfolding parse_i64 parse_nat parse_digits is_digit between in_range i64_half constants as_const_ref
    find_const
dividing_block-DividesByZero = record {
  before =
      (0, Instr.const (Literal.int (b'1' ∷ []))) ∷ (1, Instr.const (Literal.int (b'0' ∷ []))) ∷ [];
  behind = [];
  out = 2;
  left = value 0;
  right = value 1;
  dividend = b'1' ∷ [];
  divisor = b'0' ∷ [];
  number = pos 1;
  stands = refl;
  left_is = refl;
  right_is = refl;
  dividend_is = refl;
  divisor_is = refl;
}

const_fold_panics_example : const_fold wrapping dividing ≡ none
const_fold_panics_example =
    const_fold_panics wrapping dividing [] [] 0 dividing_block refl dividing_block-DividesByZero

-- A machine whose state is the size of its only collection.
sized : Machine ℕ ℕ
sized (Instr.size _) vs s = some (s, s)
sized (Instr.array_append _ _) vs s = some (0, suc s)
sized _ vs s = some (0, s)

cse_block-stale_example :
    (exit_of sized (sizes 0 1) zeros 3 ≡ some (Terminator.return_ (some (param 0)), 4 ∷ []))
    × (exit_of sized (cse_block (sizes 0 1)) zeros 3
        ≡ some (Terminator.return_ (some (param 0)), 3 ∷ []))
unfolding sized
cse_block-stale_example = cse_block-stale sized 0 1 zeros 3 4 3 4 0 refl refl refl
