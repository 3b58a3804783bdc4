-- ===== src/Ir/Builtin.antt =====
-- The built-in functions (neo-compiler/src/target/builtin.rs) and the types of stack items
-- (neo-compiler/src/target/mod.rs). A `BuiltinMethod` is its binding.
use neo_lang.Prelude.{ℕ, Bool, true, false, Option, none, some, List, [], ◌∷◌, if◌then◌else◌}
use neo_lang.OpCode.{OpCode}
use neo_lang.Ast.{LangType}
use neo_lang.Link.{same_name}

pub data StackItemType : Type 0 where
  any pointer boolean integer byte_string buffer array map interop_interface : StackItemType

pub data BuiltinEmitStep : Type 0 where
  source_arg : ℕ → BuiltinEmitStep
  op : OpCode → BuiltinEmitStep

pub data BuiltinCse : Type 0 where
  min max : BuiltinCse

pub record BuiltinBinding : Type 0 where
  pub name : List ℕ
  pub args : List StackItemType
  pub return_type : Option StackItemType
  pub emit_plan : List BuiltinEmitStep
  pub has_side_effects : Bool
  pub cse : Option BuiltinCse

unfoldable pub to_lang_type : StackItemType → LangType
to_lang_type StackItemType.boolean = LangType.bool
to_lang_type StackItemType.integer = LangType.int
to_lang_type StackItemType.byte_string = LangType.string
to_lang_type StackItemType.buffer = LangType.buffer
to_lang_type StackItemType.array = LangType.array LangType.any
to_lang_type StackItemType.map = LangType.map LangType.any LangType.any
to_lang_type StackItemType.any = LangType.any
to_lang_type StackItemType.pointer = LangType.any
to_lang_type StackItemType.interop_interface = LangType.any

is_text_or_hash : LangType → Bool
is_text_or_hash LangType.string = true
is_text_or_hash LangType.hash160 = true
is_text_or_hash LangType.hash256 = true
is_text_or_hash _ = false

unfoldable pub satisfies_lang_type : StackItemType → LangType → Bool
unfolding is_text_or_hash
satisfies_lang_type StackItemType.boolean LangType.bool = true
satisfies_lang_type StackItemType.integer LangType.int = true
satisfies_lang_type StackItemType.byte_string ty = is_text_or_hash ty
satisfies_lang_type StackItemType.buffer LangType.buffer = true
satisfies_lang_type StackItemType.buffer ty = is_text_or_hash ty
satisfies_lang_type StackItemType.array (LangType.array t) = true
satisfies_lang_type StackItemType.array LangType.any = true
satisfies_lang_type StackItemType.map (LangType.map k v) = true
satisfies_lang_type StackItemType.map LangType.any = true
satisfies_lang_type StackItemType.any ty = true
satisfies_lang_type _ ty = false

unfoldable pub return_type_of : Option StackItemType → LangType
return_type_of none = LangType.void
return_type_of (some item) = to_lang_type item

unfoldable pub return_lang_type : BuiltinBinding → LangType
return_lang_type binding = return_type_of binding.return_type

abbrev pub assert_binding : BuiltinBinding
assert_binding = record {
  name = b'a' ∷ b's' ∷ b's' ∷ b'e' ∷ b'r' ∷ b't' ∷ [];
  args = StackItemType.boolean ∷ StackItemType.byte_string ∷ [];
  return_type = none;
  emit_plan = source_arg 0 ∷ source_arg 1 ∷ op OpCode.assertmsg ∷ [];
  has_side_effects = true;
  cse = none;
}

abbrev pub abort_binding : BuiltinBinding
abort_binding = record {
  name = b'a' ∷ b'b' ∷ b'o' ∷ b'r' ∷ b't' ∷ [];
  args = StackItemType.byte_string ∷ [];
  return_type = none;
  emit_plan = source_arg 0 ∷ op OpCode.abortmsg ∷ [];
  has_side_effects = true;
  cse = none;
}

abbrev pub min_binding : BuiltinBinding
min_binding = record {
  name = b'm' ∷ b'i' ∷ b'n' ∷ [];
  args = StackItemType.integer ∷ StackItemType.integer ∷ [];
  return_type = some StackItemType.integer;
  emit_plan = source_arg 0 ∷ source_arg 1 ∷ op OpCode.min ∷ [];
  has_side_effects = false;
  cse = some BuiltinCse.min;
}

abbrev pub max_binding : BuiltinBinding
max_binding = record {
  name = b'm' ∷ b'a' ∷ b'x' ∷ [];
  args = StackItemType.integer ∷ StackItemType.integer ∷ [];
  return_type = some StackItemType.integer;
  emit_plan = source_arg 0 ∷ source_arg 1 ∷ op OpCode.max ∷ [];
  has_side_effects = false;
  cse = some BuiltinCse.max;
}

abbrev pub builtin_bindings : List BuiltinBinding
builtin_bindings = assert_binding ∷ abort_binding ∷ min_binding ∷ max_binding ∷ []

-- The names are different, so the last entry of a name in the map is the only one.
unfoldable pub find_binding : List BuiltinBinding → List ℕ → Option BuiltinBinding
find_binding [] name = none
find_binding (b ∷ bs) name = if same_name b.name name then some b else find_binding bs name

unfoldable pub builtin_binding_for_name : List ℕ → Option BuiltinBinding
builtin_binding_for_name name = find_binding builtin_bindings name
