-- ===== src/Tests/Types.antt =====
-- Concrete inputs of the theorems on types and operators.
use neo_lang.Prelude.{some, false, [], ◌∷◌, ◌≡◌, ◌↔◌, refl}
use neo_lang.Ast.{
  Expr, Literal, null_equality_compare, AssignOp, BinaryOp, to_binary_op, assign_op_code,
  binary_op_code,
}
use neo_lang.Ast.Laws.{ComparesWithNull, null_equality_compare_iff, assign_op_code-to_binary_op}

assign_op_code-to_binary_op_example :
    assign_op_code AssignOp.percent_assign ≡ binary_op_code BinaryOp.mod_
unfolding to_binary_op
assign_op_code-to_binary_op_example =
    assign_op_code-to_binary_op AssignOp.percent_assign BinaryOp.mod_ refl

-- `(null) != x`
abbrev unequal_null : Expr
unequal_null =
    Expr.binary BinaryOp.ne (Expr.paren (Expr.literal Literal.null)) (Expr.ident (b'x' ∷ []))

null_equality_compare_iff_example :
    (null_equality_compare unequal_null ≡ some (Expr.ident (b'x' ∷ []), false))
    ↔ ComparesWithNull unequal_null (Expr.ident (b'x' ∷ [])) false
null_equality_compare_iff_example =
    null_equality_compare_iff unequal_null (Expr.ident (b'x' ∷ [])) false
