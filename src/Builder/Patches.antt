-- ===== src/Builder/Patches.antt =====
-- Patching the offset of a jump (`patch_jmp_target_at_instruction`).
use neo_lang.Prelude.{
  ℕ, ◌≢◌, ◌^◌, ◌≡◌, refl, true, Option, some, arith, length, set, get_elem?, get_elem?-set_self,
  get_elem?-set_ne, lt-get_elem?,
}
use neo_lang.Prelude.Int.{
  ℤ, Fits, fits, Fits→fits, to_bits, of_bits, sub_ℕ, add_offset, add_offset-sub_ℕ,
}
use neo_lang.Prelude.Bytes.{to_le_bytes, from_le_bytes, length-to_le_bytes}
use neo_lang.Instruction.{Instruction, encoded_len, bytecode_offset_of}
use neo_lang.Instruction.Offsets.{offset-set}
use neo_lang.Builder.{Builder, i32_bytes, patch_jmp_target_at_instruction}
use neo_lang.Builder.Pushes.{signed_round_trip}

-- The address that a branch with a 4-byte offset, standing at `pc`, transfers control to.
abbrev pub long_target : ℕ → Instruction → Option ℕ
long_target pc i = add_offset pc (of_bits (2 ^ 31) (from_le_bytes i.operands))

module _ (b : Builder) (index target k : ℕ) (i : Instruction) (found : get_elem? b index ≡ some i)
    (placeholder : length i.operands ≡ 4)
    (near : Fits (2 ^ 31) (sub_ℕ target (bytecode_offset_of b index))) (other : index ≢ k) where
  offset : ℤ
  offset = sub_ℕ target (bytecode_offset_of b index)

  new : Instruction
  unfolding offset
  new = record i { operands = to_le_bytes 4 (to_bits (2 ^ 31) offset) }

  patch_result : patch_jmp_target_at_instruction b index target ≡ some (set b index new)
  unfolding patch_jmp_target_at_instruction i32_bytes new
  patch_result =
      let small : fits (2 ^ 31) offset ≡ true = Fits→fits (2 ^ 31) offset near in
      rw found (rw placeholder (rw small refl))

  same_length : encoded_len new ≡ encoded_len i
  unfolding encoded_len new
  same_length = omega (arith, length-to_le_bytes 4 (to_bits (2 ^ 31) offset), placeholder)

  read_back : long_target (bytecode_offset_of b index) new ≡ some target
  unfolding new
  read_back =
      rw (signed_round_trip 4 (2 ^ 31) offset near (omega arith) refl)
        (add_offset-sub_ℕ (bytecode_offset_of b index) target)

  -- Patching a 4-byte placeholder whose target is in reach succeeds. The patched instruction then
  -- branches to the target, no instruction moves, and every other instruction is as it was.
  pub patch_jmp_target-lands :
      (b' : Builder) × (i' : Instruction) × (patch_jmp_target_at_instruction b index target
        ≡ some b')
      × (get_elem? b' index ≡ some i')
      × (i'.opcode ≡ i.opcode)
      × (long_target (bytecode_offset_of b' index) i' ≡ some target)
      × (bytecode_offset_of b' k ≡ bytecode_offset_of b k)
      × (get_elem? b' k ≡ get_elem? b k)
  patch_jmp_target-lands =
      let moved : (n : ℕ) → bytecode_offset_of (set b index new) n ≡ bytecode_offset_of b n =
        λ n. offset-set b index n i new found same_length in
      (
        set b index new,
        new,
        patch_result,
        get_elem?-set_self b index new (lt-get_elem? b index found),
        unfold new in refl,
        rw (moved index) read_back,
        moved k,
        get_elem?-set_ne b index k new other,
      )
