-- ===== src/Ir/Numbers.antt =====
-- Folding the arithmetic of integer literals that `str::parse` reads.
use neo_lang.Prelude.{Option, none, some}
use neo_lang.Prelude.Int.{ℤ}
use neo_lang.Ast.{BinaryOp}
use neo_lang.Ir.Fold.{add, sub, mul, quotient}

-- The integer that the operator gives; `none` for another operator and for a divisor of zero.
abbrev pub exact : BinaryOp → ℤ → ℤ → Option ℤ
exact BinaryOp.add x y = some (add x y)
exact BinaryOp.sub x y = some (sub x y)
exact BinaryOp.mul x y = some (mul x y)
exact BinaryOp.div x y = quotient x y
exact _ x y = none
