-- ===== src/Ir.antt =====
-- The intermediate representation (neo-compiler/src/ir/mod.rs): a graph of basic blocks with
-- parameters, and the classes of the instructions. An identifier is its number.

pub mod Builtin
pub mod Uses
pub mod Rewrite
pub mod Passes
pub mod Meaning
pub mod Graph
pub mod Ssa
pub mod Fold
pub mod Numbers
pub mod Panics
pub mod Keys
pub mod Cse
pub mod Stale
pub mod Replaced
pub mod CopyProp
pub mod DeadCode
pub mod DeadBlocks
pub mod DeadFunction
use neo_lang.Prelude.{ℕ, Bool, true, false, Option, none, some, List}
use neo_lang.Ast.{AssignOp, UnaryOp, BinaryOp, Literal, LangType, Expr}
use neo_lang.Ir.Builtin.{BuiltinBinding}

pub data PrimTy : Type 0 where
  bool int string buffer any : PrimTy

-- `value (ValueId(n))` and `param (ParamId(n))`.
pub data ValueRef : Type 0 where
  value : ℕ → ValueRef
  param : ℕ → ValueRef

pub data Instr : Type 0 where
  const : Literal → Instr
  struct_field_get : (base : ValueRef) → (index : ℕ) → Instr
  index_get : (base index : ValueRef) → Instr
  size : (collection : ValueRef) → Instr
  keys : (map : ValueRef) → Instr
  values : (map : ValueRef) → Instr
  has_key : (map key : ValueRef) → Instr
  array_append : (array v : ValueRef) → Instr
  array_pop : (array : ValueRef) → Instr
  clear_items : (collection : ValueRef) → Instr
  remove : (map key : ValueRef) → Instr
  sub_str : (v start count : ValueRef) → Instr
  sqrt : (v : ValueRef) → Instr
  mod_mul : (v other modulus : ValueRef) → Instr
  mod_pow : (v exponent modulus : ValueRef) → Instr
  within : (v min_inclusive max_exclusive : ValueRef) → Instr
  index_set : (base index v : ValueRef) → Instr
  struct_field_set : (base : ValueRef) → (index : ℕ) → (v : ValueRef) → Instr
  unary : UnaryOp → ValueRef → Instr
  binary : BinaryOp → (left right : ValueRef) → Instr
  is_null : (v : ValueRef) → (eq_null : Bool) → Instr
  cast : ValueRef → LangType → Instr
  copy : ValueRef → Instr
  contract_storage_get : (field : List ℕ) → (value_ty : LangType) → Instr
  contract_storage_put : (field : List ℕ) → (value_ty : LangType) → (v : ValueRef) → Instr
  contract_map_storage_get :
      (field : List ℕ) → (key_ty val_ty : LangType) → (key : ValueRef) → Instr
  contract_map_storage_put :
      (field : List ℕ) → (key_ty val_ty : LangType) → (key v : ValueRef) → Instr
  contract_map_storage_compound :
      (field : List ℕ) → (key_ty val_ty : LangType) → (key v : ValueRef) → AssignOp → Instr
  contract_map_storage_has : (field : List ℕ) → (key_ty : LangType) → (key : ValueRef) → Instr
  contract_map_storage_remove : (field : List ℕ) → (key_ty : LangType) → (key : ValueRef) → Instr
  builtin_call : BuiltinBinding → (args : List ValueRef) → Instr
  emit : (name : List ℕ) → (args : List ValueRef) → Instr
  package_call : (name : List ℕ) → (args : List ValueRef) → Instr
  contract_method_call : (contract_name method : List ℕ) → (args : List ValueRef) → Instr
  struct_pack : (struct_name : List ℕ) → (field_values : List ValueRef) → Instr
  struct_call : (struct_name method : List ℕ) → (recv : ValueRef) → (args : List ValueRef) → Instr
  runtime_call : (method : List ℕ) → (args : List ValueRef) → Instr
  extern_call : (contract method : List ℕ) → (args : List ValueRef) → Instr
  array_pack : (elements : List ValueRef) → Instr
  map_pack : (pairs : List (ValueRef × ValueRef)) → Instr
  eval_ast : Expr → Instr

unfoldable pub has_side_effects : Instr → Bool
has_side_effects (Instr.builtin_call builtin args) = builtin.has_side_effects
has_side_effects (Instr.index_set _ _ _) = true
has_side_effects (Instr.struct_field_set _ _ _) = true
has_side_effects (Instr.array_append _ _) = true
has_side_effects (Instr.array_pop _) = true
has_side_effects (Instr.clear_items _) = true
has_side_effects (Instr.remove _ _) = true
has_side_effects (Instr.contract_storage_put _ _ _) = true
has_side_effects (Instr.contract_map_storage_put _ _ _ _ _) = true
has_side_effects (Instr.contract_map_storage_compound _ _ _ _ _ _) = true
has_side_effects (Instr.contract_map_storage_remove _ _ _) = true
has_side_effects (Instr.emit _ _) = true
has_side_effects (Instr.package_call _ _) = true
has_side_effects (Instr.contract_method_call _ _ _) = true
has_side_effects (Instr.struct_call _ _ _ _) = true
has_side_effects (Instr.runtime_call _ _) = true
has_side_effects (Instr.extern_call _ _ _) = true
has_side_effects (Instr.eval_ast _) = true
has_side_effects _ = false

unfoldable pub must_keep_even_if_unused : Instr → Bool
must_keep_even_if_unused (Instr.builtin_call builtin args) = builtin.has_side_effects
must_keep_even_if_unused (Instr.eval_ast _) = true
must_keep_even_if_unused (Instr.index_set _ _ _) = true
must_keep_even_if_unused (Instr.struct_field_set _ _ _) = true
must_keep_even_if_unused (Instr.array_append _ _) = true
must_keep_even_if_unused (Instr.array_pop _) = true
must_keep_even_if_unused (Instr.clear_items _) = true
must_keep_even_if_unused (Instr.remove _ _) = true
must_keep_even_if_unused (Instr.contract_storage_put _ _ _) = true
must_keep_even_if_unused (Instr.contract_map_storage_put _ _ _ _ _) = true
must_keep_even_if_unused (Instr.contract_map_storage_compound _ _ _ _ _ _) = true
must_keep_even_if_unused (Instr.contract_map_storage_remove _ _ _) = true
must_keep_even_if_unused (Instr.emit _ _) = true
must_keep_even_if_unused (Instr.package_call _ _) = true
must_keep_even_if_unused (Instr.contract_method_call _ _ _) = true
must_keep_even_if_unused (Instr.struct_pack _ _) = true
must_keep_even_if_unused (Instr.struct_call _ _ _ _) = true
must_keep_even_if_unused (Instr.runtime_call _ _) = true
must_keep_even_if_unused (Instr.extern_call _ _ _) = true
must_keep_even_if_unused _ = false

pub data Terminator : Type 0 where
  unset : Terminator
  return_ : Option ValueRef → Terminator
  jump : (target : ℕ) → (args : List ValueRef) → Terminator
  branch :
      (cond : ValueRef)
      → (then_bb : ℕ) → (then_args : List ValueRef) → (else_bb : ℕ) → (else_args : List ValueRef)
      → Terminator

pub record BlockParam : Type 0 where
  pub name : List ℕ
  pub ty : PrimTy

pub record BasicBlock : Type 0 where
  pub params : List BlockParam
  pub instrs : List (ℕ × Instr)
  pub term : Terminator

-- The map of blocks is a list in the order of the identifiers.
pub record FunctionIr : Type 0 where
  pub entry : ℕ
  pub blocks : List (ℕ × BasicBlock)
  pub value_count : ℕ
