-- ===== src/Builder.antt =====
-- The builder of a script (`Builder` of neo-compiler/src/target/mod.rs): a list of instructions
-- to which the code generator appends, with patches of jump offsets. A panic is `none`.
pub mod Pushes
pub mod Patches
use neo_lang.Prelude.{
  ℕ, zero, suc, ◌+◌, ◌≤◌, ◌^◌, Bool, true, false, Option, none, some, List, [], ◌∷◌, ◌++◌, ◌==◌,
  leb, if◌then◌else◌, ◌&&◌, length, set, get_elem?, replicate,
}
use neo_lang.Prelude.Int.{ℤ, pos, negsuc, fits, to_bits, sub_ℕ}
use neo_lang.Prelude.Bytes.{to_le_bytes}
use neo_lang.OpCode.{OpCode, byte, ◌==op◌}
use neo_lang.Instruction.{Instruction, instruction, bytecode_offset_of}

abbrev pub Builder : Type 0
Builder = List Instruction

unfoldable pub push : Builder → Instruction → Builder
push b i = b ++ i ∷ []

unfoldable pub emit : Builder → OpCode → Builder
emit b op = push b (instruction op [])

unfoldable pub emit_with_operands : Builder → OpCode → List ℕ → Builder
emit_with_operands b op operands = push b (instruction op operands)

-- The token is the syscall's u32.
unfoldable pub emit_syscall : Builder → ℕ → Builder
emit_syscall b token = emit_with_operands b OpCode.syscall (to_le_bytes 4 token)

unfoldable pub push_bool : Builder → Bool → Builder
push_bool b v = emit b (if v then OpCode.pusht else OpCode.pushf)

unfoldable pub push_null : Builder → Builder
push_null b = emit b OpCode.pushnull

-- The arms `0` to `16` of the match of `push_int`.
unfoldable pub push_small : ℕ → Option OpCode
push_small n =
    if n == 0
    then some OpCode.push0
    else if n == 1
    then some OpCode.push1
    else if n == 2
    then some OpCode.push2
    else if n == 3
    then some OpCode.push3
    else if n == 4
    then some OpCode.push4
    else if n == 5
    then some OpCode.push5
    else if n == 6
    then some OpCode.push6
    else if n == 7
    then some OpCode.push7
    else if n == 8
    then some OpCode.push8
    else if n == 9
    then some OpCode.push9
    else if n == 10
    then some OpCode.push10
    else if n == 11
    then some OpCode.push11
    else if n == 12
    then some OpCode.push12
    else if n == 13
    then some OpCode.push13
    else if n == 14
    then some OpCode.push14
    else if n == 15
    then some OpCode.push15
    else if n == 16
    then some OpCode.push16
    else none

-- The arms with a range test: the narrowest of 1, 2, 4 and 8 bytes.
unfoldable pub push_wide : ℤ → Instruction
push_wide n =
    if fits (2 ^ 7) n
    then instruction OpCode.pushint8 (to_le_bytes 1 (to_bits (2 ^ 7) n))
    else if fits (2 ^ 15) n
    then instruction OpCode.pushint16 (to_le_bytes 2 (to_bits (2 ^ 15) n))
    else if fits (2 ^ 31) n
    then instruction OpCode.pushint32 (to_le_bytes 4 (to_bits (2 ^ 31) n))
    else instruction OpCode.pushint64 (to_le_bytes 8 (to_bits (2 ^ 63) n))

unfoldable pub push_int_instruction : ℤ → Instruction
push_int_instruction (negsuc zero) = instruction OpCode.pushm1 []
push_int_instruction (negsuc (suc n)) = push_wide (negsuc (suc n))
push_int_instruction (pos n) = elim (push_small n) [
  | some op ↦ instruction op []
  | none ↦ push_wide (pos n)
]

-- The argument is an i64.
unfoldable pub push_int : Builder → ℤ → Builder
push_int b n = push b (push_int_instruction n)

unfoldable pub push_int128 : Builder → ℤ → Builder
push_int128 b n = push b (instruction OpCode.pushint128 (to_le_bytes 16 (to_bits (2 ^ 127) n)))

-- The 32 bytes are given.
unfoldable pub push_int256 : Builder → List ℕ → Builder
push_int256 b bytes = push b (instruction OpCode.pushint256 bytes)

unfoldable pub push_data_instruction : List ℕ → Option Instruction
push_data_instruction bytes =
    if leb (length bytes) 0xff
    then some (instruction OpCode.pushdata1 (to_le_bytes 1 (length bytes) ++ bytes))
    else if leb (length bytes) 0xffff
    then some (instruction OpCode.pushdata2 (to_le_bytes 2 (length bytes) ++ bytes))
    else if leb (length bytes) 0xffff_ffff
    then some (instruction OpCode.pushdata4 (to_le_bytes 4 (length bytes) ++ bytes))
    else none

unfoldable pub push_data : Builder → List ℕ → Option Builder
push_data b bytes = elim (push_data_instruction bytes) [ none ↦ none | some i ↦ some (push b i) ]

-- The relative offset as 4 bytes, or the panic of `i32::try_from`.
unfoldable pub i32_bytes : ℤ → Option (List ℕ)
i32_bytes z = if fits (2 ^ 31) z then some (to_le_bytes 4 (to_bits (2 ^ 31) z)) else none

patched : Builder → ℕ → Instruction → Option (List ℕ) → Option Builder
patched b index i none = none
patched b index i (some bytes) = some (set b index (record i { operands = bytes }))

patch_found : Builder → ℕ → ℕ → Option Instruction → Option Builder
unfolding patched
patch_found b index target none = none
patch_found b index target (some i) =
    if length i.operands == 4
    then patched b index i (i32_bytes (sub_ℕ target (bytecode_offset_of b index)))
    else none

unfoldable pub patch_jmp_target_at_instruction : Builder → ℕ → ℕ → Option Builder
unfolding patch_found
patch_jmp_target_at_instruction b index target = patch_found b index target (get_elem? b index)

-- The builder and the index of the instruction with the placeholder.
unfoldable pub emit_jmp_l_placeholder : Builder → Builder × ℕ
emit_jmp_l_placeholder b = (push b (instruction OpCode.jmp_l (replicate 4 0)), length b)

unfoldable pub emit_call_l_placeholder : Builder → Builder × ℕ
emit_call_l_placeholder b = (push b (instruction OpCode.call_l (replicate 4 0)), length b)

unfoldable pub emit_jmpif_l_placeholder : Builder → Builder × ℕ
emit_jmpif_l_placeholder b = (push b (instruction OpCode.jmpif_l (replicate 4 0)), length b)

unfoldable pub emit_jmpifnot_l_placeholder : Builder → Builder × ℕ
emit_jmpifnot_l_placeholder b = (push b (instruction OpCode.jmpifnot_l (replicate 4 0)), length b)

unfoldable pub emit_callt : Builder → ℕ → Builder
emit_callt b token_index = emit_with_operands b OpCode.callt (to_le_bytes 2 token_index)

unfoldable pub emit_initslot : Builder → ℕ → ℕ → Builder
emit_initslot b local_var_count arg_count =
    emit_with_operands b OpCode.initslot (local_var_count ∷ arg_count ∷ [])

patch_initslot_found : Builder → ℕ → ℕ → Option Instruction → Option Builder
patch_initslot_found b index count none = none
patch_initslot_found b index count (some i) =
    if (i.opcode ==op OpCode.initslot) && (length i.operands == 2)
    then some (set b index (record i { operands = set i.operands 0 count }))
    else none

unfoldable pub patch_initslot_local_count : Builder → ℕ → ℕ → Option Builder
unfolding patch_initslot_found ◌==op◌ byte
patch_initslot_local_count b index count = patch_initslot_found b index count (get_elem? b index)

patch_call_found : Builder → ℕ → ℕ → Option Instruction → Option Builder
patch_call_found b index target none = none
patch_call_found b index target (some i) =
    if i.opcode ==op OpCode.call_l then patch_jmp_target_at_instruction b index target else none

unfoldable pub patch_call_l_target_at_instruction : Builder → ℕ → ℕ → Option Builder
unfolding patch_call_found ◌==op◌ byte
patch_call_l_target_at_instruction b index target =
    patch_call_found b index target (get_elem? b index)
