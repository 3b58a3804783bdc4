-- ===== src/Syscall.antt =====
-- The system calls of the machine and the bindings of the package `runtime`
-- (neo-compiler/src/target/syscall.rs). The hash of a name, SHA-256, is a parameter.

pub mod Contract
pub mod Runtime
pub mod Storage
pub mod Table
pub mod Steps
pub mod Names
use neo_lang.Prelude.{
  ℕ, zero, suc, ◌+◌, ◌*◌, ◌-◌, ◌^◌, Bool, true, false, not, Option, none, some, List, [], ◌∷◌, ◌++◌,
  ◌==◌, ◌&&◌, leb, if◌then◌else◌, length, get_elem?, map, drop, ◌>>=?◌,
}
use neo_lang.Ast.{LangType}
use neo_lang.Ir.Builtin.{StackItemType, return_type_of}

pub data CallFlags : Type 0 where
  none_flags read_states write_states allow_call allow_notify states read_only all_flags : CallFlags

unfoldable pub flags_byte : CallFlags → ℕ
flags_byte CallFlags.none_flags = 0x00
flags_byte CallFlags.read_states = 0x01
flags_byte CallFlags.write_states = 0x02
flags_byte CallFlags.allow_call = 0x04
flags_byte CallFlags.allow_notify = 0x08
flags_byte CallFlags.states = 0x03
flags_byte CallFlags.read_only = 0x05
flags_byte CallFlags.all_flags = 0x0f

pub record Syscall : Type 0 where
  pub name : List ℕ
  pub args : List (List ℕ × StackItemType)
  pub return_type : Option StackItemType
  pub callflags : ℕ

unfoldable pub little_endian_u32 : List ℕ → Option ℕ
little_endian_u32 (a ∷ b ∷ c ∷ d ∷ rest) = some (a + (256 * b + (65536 * c + 16777216 * d)))
little_endian_u32 _ = none

-- The first four bytes of the hash; `none` is the panic on a hash of fewer bytes.
unfoldable pub token : (List ℕ → List ℕ) → Syscall → Option ℕ
token sha256 s = little_endian_u32 (sha256 s.name)

unfoldable pub syscall_lang_type : Syscall → LangType
syscall_lang_type s = return_type_of s.return_type

-- Of an ASCII letter.
unfoldable pub to_lowercase : ℕ → ℕ
to_lowercase c = if leb b'A' c && leb c b'Z' then c + 32 else c

unfoldable pub runtime_suffix_to_camel_case : List ℕ → List ℕ
runtime_suffix_to_camel_case [] = []
runtime_suffix_to_camel_case (c ∷ rest) = to_lowercase c ∷ rest

-- What stands behind the last dot, and `part` in front of the next one.
unfoldable pub last_part : List ℕ → List ℕ → List ℕ
last_part part [] = part
last_part part (c ∷ name) =
    let restart = last_part [] name in
    let more = last_part (part ++ (c ∷ [])) name in if c == b'.' then restart else more

-- Stripping `System.` leaves the last part as it is, since it ends with a dot.
unfoldable pub default_runtime_method_name : List ℕ → List ℕ
default_runtime_method_name name = runtime_suffix_to_camel_case (last_part [] name)

pub data RuntimeEmitStep : Type 0 where
  source_arg : ℕ → RuntimeEmitStep
  injected_int : ℕ → RuntimeEmitStep
  syscall : Syscall → RuntimeEmitStep

pub record RuntimeBinding : Type 0 where
  pub method : List ℕ
  pub syscall : Syscall
  pub source_args : Option (List StackItemType)
  pub emit_plan : Option (List RuntimeEmitStep)

abbrev pub direct : List ℕ → Syscall → RuntimeBinding
direct method s = record { method = method; syscall = s; source_args = none; emit_plan = none }

abbrev pub wrapped : List ℕ → Syscall → List StackItemType → List RuntimeEmitStep → RuntimeBinding
wrapped method s source_args emit_plan = record {
  method = method;
  syscall = s;
  source_args = some source_args;
  emit_plan = some emit_plan;
}

unfoldable pub arg_count : Option (List StackItemType) → Syscall → ℕ
arg_count none s = length s.args
arg_count (some source_args) s = length source_args

unfoldable pub source_arg_count : RuntimeBinding → ℕ
source_arg_count b = arg_count b.source_args b.syscall

unfoldable pub arg_type : Option (List StackItemType) → Syscall → ℕ → Option StackItemType
arg_type (some source_args) s index = get_elem? source_args index
arg_type none s index = get_elem? s.args index >>=? λ (name, ty). some ty

-- `none` is the panic of the index.
unfoldable pub source_arg_type : RuntimeBinding → ℕ → Option StackItemType
source_arg_type b index = arg_type b.source_args b.syscall index

-- The arguments from `count - 1` down to 0.
unfoldable pub reversed_args : ℕ → List RuntimeEmitStep
reversed_args zero = []
reversed_args (suc index) = RuntimeEmitStep.source_arg index ∷ reversed_args index

unfoldable pub steps_of : Option (List RuntimeEmitStep) → Syscall → List RuntimeEmitStep
steps_of (some plan) s = plan
steps_of none s = reversed_args (length s.args) ++ (RuntimeEmitStep.syscall s ∷ [])

unfoldable pub emit_steps : RuntimeBinding → List RuntimeEmitStep
emit_steps b = steps_of b.emit_plan b.syscall

unfoldable pub is_void : LangType → Bool
is_void LangType.void = true
is_void _ = false

unfoldable pub leaves_stack_value : RuntimeBinding → Bool
leaves_stack_value b = not (is_void (syscall_lang_type b.syscall))
