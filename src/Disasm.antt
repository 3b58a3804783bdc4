-- ===== src/Disasm.antt =====
-- The disassembler (neo-compiler/src/disasm.rs): decoding a script into instructions. Operand
-- bytes are read at offsets of the script, after the test that they are there.
pub mod Shapes
pub mod RoundTrip
pub mod Ends
use neo_lang.Prelude.{
  ℕ, zero, suc, ◌+◌, Option, none, some, List, [], ◌∷◌, ◌++◌, leb, ltb, if◌then◌else◌, length,
  get_elem?, take, drop, Result, ok, err, ◌>>=◌,
}
use neo_lang.Prelude.Bytes.{from_le_bytes}
use neo_lang.OpCode.{OpCode}
use neo_lang.OpCode.TryFrom.{TryFromPrimitive}
use neo_lang.Instruction.{Instruction, instruction}

-- The errors, each with the offset that its message names. `stuck` is no error of the source: the
-- loop of the model ran out of fuel.
pub data DisasmError : Type 0 where
  unexpected_eof no_opcode unknown_opcode : ℕ → DisasmError
  stuck : DisasmError

-- `bytes[start..start + n]`.
abbrev pub slice : List ℕ → ℕ → ℕ → List ℕ
slice bytes start n = take n (drop start bytes)

unfoldable pub need : List ℕ → ℕ → ℕ → Result DisasmError (Unit {0})
need bytes start n = if leb (start + n) (length bytes) then ok tt else err (unexpected_eof start)

-- An arm with a fixed number of operand bytes.
unfoldable pub fixed : List ℕ → ℕ → ℕ → Result DisasmError ℕ
unfolding need
fixed bytes ostart n = do _ ← need bytes ostart n; ok n

-- The arms of `PUSHDATA1`, `PUSHDATA2` and `PUSHDATA4`: a length of `w` bytes and the payload.
unfoldable pub counted : List ℕ → ℕ → ℕ → Result DisasmError ℕ
unfolding need
counted bytes ostart w = do
  _ ← need bytes ostart w
  let n = from_le_bytes (slice bytes ostart w)
  _ ← need bytes ostart (w + n)
  ok (w + n)

unfoldable pub operand_len : List ℕ → ℕ → OpCode → Result DisasmError ℕ
operand_len bytes ostart OpCode.pushint8 = fixed bytes ostart 1
operand_len bytes ostart OpCode.pushint16 = fixed bytes ostart 2
operand_len bytes ostart OpCode.pushint32 = fixed bytes ostart 4
operand_len bytes ostart OpCode.pushint64 = fixed bytes ostart 8
operand_len bytes ostart OpCode.pushint128 = fixed bytes ostart 16
operand_len bytes ostart OpCode.pushint256 = fixed bytes ostart 32
operand_len bytes ostart OpCode.pusha = fixed bytes ostart 4
operand_len bytes ostart OpCode.pushdata1 = counted bytes ostart 1
operand_len bytes ostart OpCode.pushdata2 = counted bytes ostart 2
operand_len bytes ostart OpCode.pushdata4 = counted bytes ostart 4
operand_len bytes ostart OpCode.jmp = fixed bytes ostart 1
operand_len bytes ostart OpCode.jmpif = fixed bytes ostart 1
operand_len bytes ostart OpCode.jmpifnot = fixed bytes ostart 1
operand_len bytes ostart OpCode.jmpeq = fixed bytes ostart 1
operand_len bytes ostart OpCode.jmpne = fixed bytes ostart 1
operand_len bytes ostart OpCode.jmpgt = fixed bytes ostart 1
operand_len bytes ostart OpCode.jmpge = fixed bytes ostart 1
operand_len bytes ostart OpCode.jmplt = fixed bytes ostart 1
operand_len bytes ostart OpCode.jmple = fixed bytes ostart 1
operand_len bytes ostart OpCode.call = fixed bytes ostart 1
operand_len bytes ostart OpCode.endtry = fixed bytes ostart 1
operand_len bytes ostart OpCode.jmp_l = fixed bytes ostart 4
operand_len bytes ostart OpCode.jmpif_l = fixed bytes ostart 4
operand_len bytes ostart OpCode.jmpifnot_l = fixed bytes ostart 4
operand_len bytes ostart OpCode.jmpeq_l = fixed bytes ostart 4
operand_len bytes ostart OpCode.jmpne_l = fixed bytes ostart 4
operand_len bytes ostart OpCode.jmpgt_l = fixed bytes ostart 4
operand_len bytes ostart OpCode.jmpge_l = fixed bytes ostart 4
operand_len bytes ostart OpCode.jmplt_l = fixed bytes ostart 4
operand_len bytes ostart OpCode.jmple_l = fixed bytes ostart 4
operand_len bytes ostart OpCode.call_l = fixed bytes ostart 4
operand_len bytes ostart OpCode.endtry_l = fixed bytes ostart 4
operand_len bytes ostart OpCode.try = fixed bytes ostart 2
operand_len bytes ostart OpCode.try_l = fixed bytes ostart 8
operand_len bytes ostart OpCode.syscall = fixed bytes ostart 4
operand_len bytes ostart OpCode.callt = fixed bytes ostart 2
operand_len bytes ostart OpCode.initsslot = fixed bytes ostart 1
operand_len bytes ostart OpCode.initslot = fixed bytes ostart 2
operand_len bytes ostart OpCode.ldsfld = fixed bytes ostart 1
operand_len bytes ostart OpCode.stsfld = fixed bytes ostart 1
operand_len bytes ostart OpCode.ldloc = fixed bytes ostart 1
operand_len bytes ostart OpCode.stloc = fixed bytes ostart 1
operand_len bytes ostart OpCode.ldarg = fixed bytes ostart 1
operand_len bytes ostart OpCode.starg = fixed bytes ostart 1
operand_len bytes ostart OpCode.istype = fixed bytes ostart 1
operand_len bytes ostart OpCode.convert = fixed bytes ostart 1
operand_len bytes ostart OpCode.newarray_t = fixed bytes ostart 1
operand_len bytes ostart _ = ok 0

module _ (reader : TryFromPrimitive) where
  open reader use {try_from}

  unfoldable pub decode_op : List ℕ → ℕ → Option OpCode → Result DisasmError (Instruction × ℕ)
  decode_op bytes ip none = err (unknown_opcode ip)
  decode_op bytes ip (some op) = do
    n ← operand_len bytes (ip + 1) op
    ok (instruction op (slice bytes (ip + 1) n), 1 + n)

  unfoldable pub decode_at : List ℕ → ℕ → Option ℕ → Result DisasmError (Instruction × ℕ)
  unfolding decode_op
  decode_at bytes ip none = err (no_opcode ip)
  decode_at bytes ip (some b0) = decode_op bytes ip (try_from b0)

  -- The instruction at an offset, and its size.
  unfoldable pub decode_one : List ℕ → ℕ → Result DisasmError (Instruction × ℕ)
  unfolding decode_at
  decode_one bytes ip = decode_at bytes ip (get_elem? bytes ip)

  -- The loop of `decode_script`; what it has decoded stands in `out`.
  unfoldable pub decode_loop :
      ℕ → List ℕ → ℕ → List Instruction → Result DisasmError (List Instruction)
  decode_loop zero bytes ip out = err stuck
  decode_loop (suc fuel) bytes ip out =
      let rest = decode_one bytes ip >>= λ r. decode_loop fuel bytes (ip + r.1) (out ++ r.0 ∷ []) in
      if ltb ip (length bytes) then rest else ok out

  -- Each round takes a byte at least.
  unfoldable pub decode_script : List ℕ → Result DisasmError (List Instruction)
  decode_script bytes = decode_loop (suc (length bytes)) bytes 0 []
