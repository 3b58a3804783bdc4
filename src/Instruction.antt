-- ===== src/Instruction.antt =====
-- Instructions and their bytes (`Instruction` of neo-compiler/src/target/mod.rs), with the byte
-- offsets of a sequence of instructions.
pub mod Offsets
use neo_lang.Prelude.{ℕ, zero, suc, ◌+◌, List, [], ◌∷◌, ◌++◌, length, take}
use neo_lang.OpCode.{OpCode, byte}

-- `operands` are the serialized operands, as bytes.
pub record Instruction : Type 0 where
  pub opcode : OpCode
  pub operands : List ℕ

abbrev pub instruction : OpCode → List ℕ → Instruction
instruction op bytes = record { opcode = op; operands = bytes }

unfoldable pub encoded_len : Instruction → ℕ
encoded_len i = 1 + length i.operands

unfoldable pub to_bytes : Instruction → List ℕ
to_bytes i = byte i.opcode ∷ i.operands

-- `encode_into` of a builder: the bytes of all instructions, in order.
unfoldable pub encode : List Instruction → List ℕ
encode [] = []
encode (i ∷ is) = to_bytes i ++ encode is

-- The sum of the lengths.
unfoldable pub bytecode_len : List Instruction → ℕ
bytecode_len [] = 0
bytecode_len (i ∷ is) = encoded_len i + bytecode_len is

-- The byte offset of the instruction at an index.
unfoldable pub bytecode_offset_of : List Instruction → ℕ → ℕ
bytecode_offset_of is index = bytecode_len (take index is)
