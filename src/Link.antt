-- ===== src/Link.antt =====
-- The routines of a file and the linker of their calls (neo-compiler/src/codegen/mod.rs). Names
-- are the bytes of the strings; the hash map of offsets is an association list.
pub mod Table
pub mod Patching
pub mod Lands
pub mod Script
pub mod Succeeds
use neo_lang.Prelude.{
  ℕ, ◌+◌, ◌^◌, Bool, true, false, ◌&&◌, Option, none, some, List, [], ◌∷◌, ◌++◌, ◌==◌, ltb,
  if◌then◌else◌, length, set, get_elem?, Result, ok, err, ◌>>=◌,
}
use neo_lang.Prelude.Int.{sub_ℕ}
use neo_lang.OpCode.{OpCode, ◌==op◌}
use neo_lang.Instruction.{Instruction, encode, bytecode_len, bytecode_offset_of}
use neo_lang.Builder.{i32_bytes}
use neo_lang.Nef.Tokens.{MethodToken}
use neo_lang.Peephole.Slots.{Patch}

-- `contract` is `none` for the functions of a package.
pub record CompiledFunction : Type 0 where
  pub name : List ℕ
  pub contract : Option (List ℕ)
  pub instructions : List Instruction
  pub call_patches : List Patch

pub record CompiledSourceFile : Type 0 where
  pub package_functions : List CompiledFunction
  pub struct_methods : List CompiledFunction
  pub contract_methods : List CompiledFunction
  pub method_tokens : List MethodToken

qualified_name : List ℕ → Option (List ℕ) → List ℕ
qualified_name name none = name
qualified_name name (some c) = c ++ (0x3a ∷ 0x3a ∷ name)

-- `contract::name`.
unfoldable pub link_symbol : CompiledFunction → List ℕ
unfolding qualified_name
link_symbol f = qualified_name f.name f.contract

-- The functions in the order of the script.
unfoldable pub all_functions : CompiledSourceFile → List CompiledFunction
all_functions file = file.package_functions ++ (file.struct_methods ++ file.contract_methods)

unfoldable pub flatten : List CompiledFunction → List ℕ
flatten [] = []
flatten (f ∷ fs) = encode f.instructions ++ flatten fs

unfoldable pub flatten_to_bytes : CompiledSourceFile → List ℕ
flatten_to_bytes file =
    flatten file.package_functions ++ (flatten file.struct_methods ++ flatten file.contract_methods)

-- The four messages and the panics of `expect` and of the slice.
pub data LinkError : Type 0 where
  duplicate_routine : List ℕ → LinkError
  target_not_found : List ℕ → LinkError
  offset_overflow wrong_instruction panic : LinkError

unfoldable pub same_name : List ℕ → List ℕ → Bool
same_name [] [] = true
same_name (a ∷ s) (b ∷ t) = (a == b) && same_name s t
same_name _ _ = false

unfoldable pub lookup : List (List ℕ × ℕ) → List ℕ → Option ℕ
lookup [] s = none
lookup ((k, v) ∷ m) s = if same_name k s then some v else lookup m s

-- The first loop: the offset of each routine, from `off` on.
unfoldable pub register :
    ℕ → List (List ℕ × ℕ) → List CompiledFunction → Result LinkError (List (List ℕ × ℕ))
register off offsets [] = ok offsets
register off offsets (f ∷ fs) = elim (lookup offsets (link_symbol f)) [
  | some _ ↦ err (duplicate_routine (link_symbol f))
  | none ↦ register (off + bytecode_len f.instructions) ((link_symbol f, off) ∷ offsets) fs
]

unfoldable pub found_or : Option ℕ → LinkError → Result LinkError ℕ
found_or none e = err e
found_or (some n) e = ok n

unfoldable pub relative_bytes : Option (List ℕ) → Result LinkError (List ℕ)
relative_bytes none = err offset_overflow
relative_bytes (some bytes) = ok bytes

unfoldable pub write_call :
    List Instruction → ℕ → Option Instruction → List ℕ → Result LinkError (List Instruction)
write_call is index none bytes = err panic
write_call is index (some i) bytes =
    if (i.opcode ==op OpCode.call_l) && (length i.operands == 4)
    then ok (set is index (record i { operands = bytes }))
    else err wrong_instruction

-- One round of the loop over the patches.
unfoldable pub apply_patch :
    List (List ℕ × ℕ) → ℕ → List Instruction → Patch → Result LinkError (List Instruction)
apply_patch offsets my_start is p =
    found_or (lookup offsets p.1) (target_not_found p.1) >>= λ target_pc.
    if ltb (length is) p.0
    then err panic
    else (relative_bytes (i32_bytes (sub_ℕ target_pc (my_start + bytecode_offset_of is p.0)))
        >>= λ bytes. write_call is p.0 (get_elem? is p.0) bytes)

unfoldable pub apply_patches :
    List (List ℕ × ℕ) → ℕ → List Instruction → List Patch → Result LinkError (List Instruction)
apply_patches offsets my_start is [] = ok is
apply_patches offsets my_start is (p ∷ ps) =
    apply_patch offsets my_start is p >>= λ is'. apply_patches offsets my_start is' ps

-- The closure `apply`.
unfoldable pub apply : List (List ℕ × ℕ) → CompiledFunction → Result LinkError CompiledFunction
apply offsets f = found_or (lookup offsets (link_symbol f)) panic >>= λ my_start.
    apply_patches offsets my_start f.instructions f.call_patches >>= λ is.
    ok (record f { instructions = is; call_patches = [] })

unfoldable pub apply_all :
    List (List ℕ × ℕ) → List CompiledFunction → Result LinkError (List CompiledFunction)
apply_all offsets [] = ok []
apply_all offsets (f ∷ fs) = apply offsets f >>= λ f'. apply_all offsets fs >>= λ fs'. ok (f' ∷ fs')

-- The file with its calls linked, or the first error.
unfoldable pub link_call_l_patches : CompiledSourceFile → Result LinkError CompiledSourceFile
link_call_l_patches file = register 0 [] (all_functions file) >>= λ offsets.
    apply_all offsets file.package_functions >>= λ ps.
    apply_all offsets file.struct_methods >>= λ ss.
    apply_all offsets file.contract_methods >>= λ cs.
    ok (record file { package_functions = ps; struct_methods = ss; contract_methods = cs })
