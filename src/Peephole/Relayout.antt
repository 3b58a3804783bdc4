-- ===== src/Peephole/Relayout.antt =====
-- Byte offsets and the re-encoding of relative operands after an edit of the script.
use neo_lang.Prelude.{
  ℕ, ◌+◌, ◌-◌, ◌^◌, Option, none, some, List, [], ◌∷◌, ◌++◌, ◌==◌, ltb, if◌then◌else◌, length, take,
  drop, ◌>>=?◌,
}
use neo_lang.Prelude.Int.{ℤ, fits, to_bits, of_bits, sub_ℕ, add_offset}
use neo_lang.Prelude.Bytes.{to_le_bytes, from_le_bytes}
use neo_lang.OpCode.{OpCode, ◌==op◌}
use neo_lang.OpCode.Classes.{is_change_pc_short, is_change_pc_long}
use neo_lang.Instruction.{Instruction, encoded_len}

-- The loop, with the offset so far.
unfoldable pub prefix_from : ℕ → List Instruction → List ℕ
prefix_from pc [] = []
prefix_from pc (i ∷ is) = pc ∷ prefix_from (pc + encoded_len i) is

unfoldable pub prefix_byte_offsets : List Instruction → List ℕ
unfolding prefix_from
prefix_byte_offsets = prefix_from 0

unfoldable pub map_byte_offset_after_delete : ℕ → ℕ → ℕ → ℕ
map_byte_offset_after_delete p del_start del_len =
    if ltb p del_start then p else if ltb p (del_start + del_len) then del_start else p - del_len

unfoldable pub map_byte_offset_after_strict_remove : ℕ → ℕ → ℕ → Option ℕ
map_byte_offset_after_strict_remove p del_start del_len =
    if ltb p del_start
    then some p
    else if ltb p (del_start + del_len)
    then none
    else some (p - del_len)

-- `None` for fewer than four bytes.
unfoldable pub read_i32_le : List ℕ → Option ℤ
read_i32_le bytes =
    if ltb (length bytes) 4 then none else some (of_bits (2 ^ 31) (from_le_bytes (take 4 bytes)))

unfoldable pub operand_as_i8 : List ℕ → Option ℤ
operand_as_i8 [] = none
operand_as_i8 (b ∷ _) = some (of_bits (2 ^ 7) b)

-- The new offset as a byte, if `i8::try_from` takes it.
unfoldable pub i8_operand : ℤ → Option (List ℕ)
i8_operand z = if fits (2 ^ 7) z then some (to_bits (2 ^ 7) z ∷ []) else none

-- The new offset as four bytes, if `i32::try_from` takes it.
unfoldable pub i32_operand : ℤ → Option (List ℕ)
i32_operand z = if fits (2 ^ 31) z then some (to_le_bytes 4 (to_bits (2 ^ 31) z)) else none

-- One operand: its absolute target at the old place, mapped, seen from the new place and encoded.
-- `none` is the return of `false`.
unfoldable pub relayout_operand :
    (ℤ → Option (List ℕ)) → (ℕ → Option ℕ) → ℕ → ℕ → ℤ → Option (List ℕ)
relayout_operand encode map_abs old_pc new_pc relative =
    add_offset old_pc relative >>=? λ abs. map_abs abs >>=? λ new_abs. encode (sub_ℕ new_abs new_pc)

-- The arms for one operand; an operand that cannot be read is skipped.
unfoldable pub relayout_single :
    (ℤ → Option (List ℕ)) → (ℕ → Option ℕ) → ℕ → ℕ → Instruction → Option ℤ → Option Instruction
relayout_single encode map_abs old_pc new_pc i none = some i
relayout_single encode map_abs old_pc new_pc i (some relative) =
    relayout_operand encode map_abs old_pc new_pc relative >>=? λ bytes.
    some (record i { operands = bytes })

-- The arms of `TRY` and `TRY_L`: two operands.
unfoldable pub relayout_double :
    (ℤ → Option (List ℕ))
    → (ℕ → Option ℕ)
    → ℕ
    → ℕ
    → Instruction
    → Option ℤ
    → Option ℤ
    → Option Instruction
relayout_double encode map_abs old_pc new_pc i none _ = some i
relayout_double encode map_abs old_pc new_pc i (some _) none = some i
relayout_double encode map_abs old_pc new_pc i (some first) (some second) =
    relayout_operand encode map_abs old_pc new_pc first >>=? λ bytes.
    relayout_operand encode map_abs old_pc new_pc second >>=? λ more.
    some (record i { operands = bytes ++ more })

-- The match on one instruction.
unfoldable pub relayout_one : (ℕ → Option ℕ) → ℕ → ℕ → Instruction → Option Instruction
unfolding relayout_single relayout_double
relayout_one map_abs old_pc new_pc i =
    if i.opcode ==op OpCode.try
    then (if length i.operands == 2
        then relayout_double i8_operand map_abs old_pc new_pc i (operand_as_i8 i.operands)
            (operand_as_i8 (drop 1 i.operands))
        else some i)
    else if is_change_pc_short i.opcode
    then (if length i.operands == 1
        then relayout_single i8_operand map_abs old_pc new_pc i (operand_as_i8 i.operands)
        else some i)
    else if i.opcode ==op OpCode.try_l
    then (if length i.operands == 8
        then relayout_double i32_operand map_abs old_pc new_pc i (read_i32_le (take 4 i.operands))
            (read_i32_le (drop 4 i.operands))
        else some i)
    else if is_change_pc_long i.opcode
    then (if length i.operands == 4
        then relayout_single i32_operand map_abs old_pc new_pc i (read_i32_le i.operands)
        else some i)
    else some i
