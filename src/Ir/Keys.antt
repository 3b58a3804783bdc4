-- ===== src/Ir/Keys.antt =====
-- The keys of the numbering of values (neo-compiler/src/ir/opt.rs, `PureKey`) and their equality.
use neo_lang.Prelude.{ℕ, Bool, true, false, Option, none, some, List, [], ◌∷◌, ◌==◌, ◌&&◌}
use neo_lang.Ast.{UnaryOp, BinaryOp, Literal, LangType}
use neo_lang.Ast.Types.{same_type}
use neo_lang.Link.{same_name}
use neo_lang.Ir.{ValueRef, value, param, Instr}
use neo_lang.Ir.Builtin.{BuiltinCse}
use neo_lang.Ir.Fold.{same_bool}

pub data PureKey : Type 0 where
  const : Literal → PureKey
  struct_field_get : ValueRef → ℕ → PureKey
  index_get : ValueRef → ValueRef → PureKey
  size : ValueRef → PureKey
  keys : ValueRef → PureKey
  values : ValueRef → PureKey
  has_key : ValueRef → ValueRef → PureKey
  sub_str : ValueRef → ValueRef → ValueRef → PureKey
  sqrt : ValueRef → PureKey
  mod_mul : ValueRef → ValueRef → ValueRef → PureKey
  mod_pow : ValueRef → ValueRef → ValueRef → PureKey
  within : ValueRef → ValueRef → ValueRef → PureKey
  copy : ValueRef → PureKey
  unary : UnaryOp → ValueRef → PureKey
  binary : BinaryOp → ValueRef → ValueRef → PureKey
  is_null : ValueRef → Bool → PureKey
  cast : ValueRef → LangType → PureKey
  builtin : BuiltinCse → ValueRef → ValueRef → PureKey

unfoldable pub same_ref : ValueRef → ValueRef → Bool
same_ref (value a) (value b) = a == b
same_ref (param a) (param b) = a == b
same_ref _ _ = false

unfoldable pub same_literal : Literal → Literal → Bool
same_literal Literal.null Literal.null = true
same_literal (Literal.bool a) (Literal.bool b) = same_bool a b
same_literal (Literal.int a) (Literal.int b) = same_name a b
same_literal (Literal.string a) (Literal.string b) = same_name a b
same_literal (Literal.buffer a) (Literal.buffer b) = same_name a b
same_literal _ _ = false

unfoldable pub same_unary : UnaryOp → UnaryOp → Bool
same_unary UnaryOp.positive UnaryOp.positive = true
same_unary UnaryOp.negative UnaryOp.negative = true
same_unary UnaryOp.not UnaryOp.not = true
same_unary UnaryOp.bit_not UnaryOp.bit_not = true
same_unary _ _ = false

unfoldable pub same_binary : BinaryOp → BinaryOp → Bool
same_binary BinaryOp.mul BinaryOp.mul = true
same_binary BinaryOp.div BinaryOp.div = true
same_binary BinaryOp.mod_ BinaryOp.mod_ = true
same_binary BinaryOp.add BinaryOp.add = true
same_binary BinaryOp.sub BinaryOp.sub = true
same_binary BinaryOp.shl BinaryOp.shl = true
same_binary BinaryOp.shr BinaryOp.shr = true
same_binary BinaryOp.bit_and BinaryOp.bit_and = true
same_binary BinaryOp.bit_or BinaryOp.bit_or = true
same_binary BinaryOp.bit_xor BinaryOp.bit_xor = true
same_binary BinaryOp.eq BinaryOp.eq = true
same_binary BinaryOp.ne BinaryOp.ne = true
same_binary BinaryOp.lt BinaryOp.lt = true
same_binary BinaryOp.le BinaryOp.le = true
same_binary BinaryOp.gt BinaryOp.gt = true
same_binary BinaryOp.ge BinaryOp.ge = true
same_binary BinaryOp.and BinaryOp.and = true
same_binary BinaryOp.or BinaryOp.or = true
same_binary _ _ = false

unfoldable pub same_cse : BuiltinCse → BuiltinCse → Bool
same_cse BuiltinCse.min BuiltinCse.min = true
same_cse BuiltinCse.max BuiltinCse.max = true
same_cse _ _ = false

unfoldable pub same_refs : ValueRef → ValueRef → ValueRef → ValueRef → Bool
same_refs a b a' b' = same_ref a a' && same_ref b b'

unfoldable pub same_key : PureKey → PureKey → Bool
same_key (PureKey.const l) (PureKey.const l') = same_literal l l'
same_key (PureKey.struct_field_get a k) (PureKey.struct_field_get a' k') =
    same_ref a a' && (k == k')
same_key (PureKey.index_get a b) (PureKey.index_get a' b') = same_refs a b a' b'
same_key (PureKey.size a) (PureKey.size a') = same_ref a a'
same_key (PureKey.keys a) (PureKey.keys a') = same_ref a a'
same_key (PureKey.values a) (PureKey.values a') = same_ref a a'
same_key (PureKey.has_key a b) (PureKey.has_key a' b') = same_refs a b a' b'
same_key (PureKey.sub_str a b c) (PureKey.sub_str a' b' c') = same_refs a b a' b' && same_ref c c'
same_key (PureKey.sqrt a) (PureKey.sqrt a') = same_ref a a'
same_key (PureKey.mod_mul a b c) (PureKey.mod_mul a' b' c') = same_refs a b a' b' && same_ref c c'
same_key (PureKey.mod_pow a b c) (PureKey.mod_pow a' b' c') = same_refs a b a' b' && same_ref c c'
same_key (PureKey.within a b c) (PureKey.within a' b' c') = same_refs a b a' b' && same_ref c c'
same_key (PureKey.copy a) (PureKey.copy a') = same_ref a a'
same_key (PureKey.unary op a) (PureKey.unary op' a') = same_unary op op' && same_ref a a'
same_key (PureKey.binary op a b) (PureKey.binary op' a' b') =
    same_binary op op' && same_refs a b a' b'
same_key (PureKey.is_null a e) (PureKey.is_null a' e') = same_ref a a' && same_bool e e'
same_key (PureKey.cast a t) (PureKey.cast a' t') = same_ref a a' && same_type t t'
same_key (PureKey.builtin f a b) (PureKey.builtin f' a' b') = same_cse f f' && same_refs a b a' b'
same_key _ _ = false

unfoldable pub builtin_key : Option BuiltinCse → List ValueRef → Option PureKey
builtin_key (some f) (a ∷ b ∷ []) = some (PureKey.builtin f a b)
builtin_key _ _ = none

-- The key of an instruction whose references are normal.
unfoldable pub pure_key : Instr → Option PureKey
pure_key (Instr.const l) = some (PureKey.const l)
pure_key (Instr.struct_field_get a k) = some (PureKey.struct_field_get a k)
pure_key (Instr.copy a) = some (PureKey.copy a)
pure_key (Instr.unary op a) = some (PureKey.unary op a)
pure_key (Instr.binary op a b) = some (PureKey.binary op a b)
pure_key (Instr.is_null a e) = some (PureKey.is_null a e)
pure_key (Instr.index_get a b) = some (PureKey.index_get a b)
pure_key (Instr.size a) = some (PureKey.size a)
pure_key (Instr.keys a) = some (PureKey.keys a)
pure_key (Instr.values a) = some (PureKey.values a)
pure_key (Instr.has_key a b) = some (PureKey.has_key a b)
pure_key (Instr.sub_str a b c) = some (PureKey.sub_str a b c)
pure_key (Instr.sqrt a) = some (PureKey.sqrt a)
pure_key (Instr.mod_mul a b c) = some (PureKey.mod_mul a b c)
pure_key (Instr.mod_pow a b c) = some (PureKey.mod_pow a b c)
pure_key (Instr.within a b c) = some (PureKey.within a b c)
pure_key (Instr.cast a t) = some (PureKey.cast a t)
pure_key (Instr.builtin_call f args) = builtin_key f.cse args
pure_key _ = none
