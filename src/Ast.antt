-- ===== src/Ast.antt =====
-- The operators, literals, types and expressions of the syntax tree
-- (neo-compiler/src/syntax/ast.rs), and the opcodes of the operators
-- (neo-compiler/src/target/opcode.rs). A string is a list of bytes; the vectors inside an
-- expression are data types of their own.

pub mod Types
pub mod Laws
use neo_lang.Prelude.{ℕ, Bool, true, false, Option, none, some, List, ◌&&◌, ◌||◌, if◌then◌else◌}
use neo_lang.OpCode.{OpCode}
use neo_lang.Link.{same_name}

pub data AssignOp : Type 0 where
  assign plus_assign minus_assign star_assign slash_assign percent_assign : AssignOp
  shr_assign shl_assign amp_assign pipe_assign caret_assign : AssignOp

pub data UnaryOp : Type 0 where
  positive negative not bit_not : UnaryOp

pub data BinaryOp : Type 0 where
  mul div mod_ add sub shl shr bit_and bit_or bit_xor : BinaryOp
  eq ne lt le gt ge and or : BinaryOp

pub data Literal : Type 0 where
  null : Literal
  bool : Bool → Literal
  int : List ℕ → Literal
  string : List ℕ → Literal
  buffer : List ℕ → Literal

pub data LangType : Type 0 where
  void bool int string hash160 hash256 buffer any : LangType
  named : List ℕ → LangType
  array : LangType → LangType
  map : LangType → LangType → LangType

mutual
  pub data Expr : Type 0 where
    assign : Expr → AssignOp → Expr → Expr
    literal : Literal → Expr
    ident : List ℕ → Expr
    self_ : Expr
    cast : Expr → LangType → Expr
    binary : BinaryOp → Expr → Expr → Expr
    unary : UnaryOp → Expr → Expr
    member : Expr → List ℕ → Expr
    index : Expr → Expr → Expr
    call : Expr → Exprs → Expr
    struct_lit : List ℕ → Fields → Expr
    map_lit : LangType → Pairs → Expr
    array_lit : LangType → Exprs → Expr
    paren : Expr → Expr

  -- `Vec<Expr>`, `Vec<(String, Expr)>` and `Vec<(Expr, Expr)>`.
  pub data Exprs : Type 0 where
    no_exprs : Exprs
    expr_then : Expr → Exprs → Exprs

  pub data Fields : Type 0 where
    no_fields : Fields
    field_then : List ℕ → Expr → Fields → Fields

  pub data Pairs : Type 0 where
    no_pairs : Pairs
    pair_then : Expr → Expr → Pairs → Pairs

unfoldable pub to_binary_op : AssignOp → Option BinaryOp
to_binary_op AssignOp.plus_assign = some BinaryOp.add
to_binary_op AssignOp.minus_assign = some BinaryOp.sub
to_binary_op AssignOp.star_assign = some BinaryOp.mul
to_binary_op AssignOp.slash_assign = some BinaryOp.div
to_binary_op AssignOp.percent_assign = some BinaryOp.mod_
to_binary_op AssignOp.shr_assign = some BinaryOp.shr
to_binary_op AssignOp.shl_assign = some BinaryOp.shl
to_binary_op AssignOp.amp_assign = some BinaryOp.bit_and
to_binary_op AssignOp.pipe_assign = some BinaryOp.bit_or
to_binary_op AssignOp.caret_assign = some BinaryOp.bit_xor
to_binary_op AssignOp.assign = none

unfoldable pub binary_op_code : BinaryOp → OpCode
binary_op_code BinaryOp.mul = OpCode.mul
binary_op_code BinaryOp.div = OpCode.div
binary_op_code BinaryOp.mod_ = OpCode.mod_op
binary_op_code BinaryOp.add = OpCode.add
binary_op_code BinaryOp.sub = OpCode.sub
binary_op_code BinaryOp.shl = OpCode.shl
binary_op_code BinaryOp.shr = OpCode.shr
binary_op_code BinaryOp.bit_and = OpCode.and
binary_op_code BinaryOp.bit_or = OpCode.or
binary_op_code BinaryOp.bit_xor = OpCode.xor
binary_op_code BinaryOp.eq = OpCode.equal
binary_op_code BinaryOp.ne = OpCode.notequal
binary_op_code BinaryOp.lt = OpCode.lt
binary_op_code BinaryOp.le = OpCode.le
binary_op_code BinaryOp.gt = OpCode.gt
binary_op_code BinaryOp.ge = OpCode.ge
binary_op_code BinaryOp.and = OpCode.and
binary_op_code BinaryOp.or = OpCode.or

unfoldable pub assign_op_code : AssignOp → OpCode
assign_op_code AssignOp.plus_assign = OpCode.add
assign_op_code AssignOp.minus_assign = OpCode.sub
assign_op_code AssignOp.star_assign = OpCode.mul
assign_op_code AssignOp.slash_assign = OpCode.div
assign_op_code AssignOp.percent_assign = OpCode.mod_op
assign_op_code AssignOp.shr_assign = OpCode.shr
assign_op_code AssignOp.shl_assign = OpCode.shl
assign_op_code AssignOp.amp_assign = OpCode.and
assign_op_code AssignOp.pipe_assign = OpCode.or
assign_op_code AssignOp.caret_assign = OpCode.xor
assign_op_code AssignOp.assign = OpCode.dup

unfoldable pub is_null_literal : Expr → Bool
is_null_literal (Expr.literal Literal.null) = true
is_null_literal (Expr.paren inner) = is_null_literal inner
is_null_literal _ = false

-- Whether the operator compares with `==`; `none` for an operator that does not compare so.
unfoldable pub eq_null : BinaryOp → Option Bool
eq_null BinaryOp.eq = some true
eq_null BinaryOp.ne = some false
eq_null _ = none

unfoldable pub null_operand : Expr → Expr → Bool → Option (Expr × Bool)
null_operand left right is_eq =
    if is_null_literal left
    then some (right, is_eq)
    else if is_null_literal right
    then some (left, is_eq)
    else none

unfoldable pub null_compare : Option Bool → Expr → Expr → Option (Expr × Bool)
null_compare none left right = none
null_compare (some is_eq) left right = null_operand left right is_eq

unfoldable pub null_equality_compare : Expr → Option (Expr × Bool)
null_equality_compare (Expr.binary op left right) = null_compare (eq_null op) left right
null_equality_compare _ = none
