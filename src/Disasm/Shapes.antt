-- ===== src/Disasm/Shapes.antt =====
-- The layout of the operands of each opcode, as the documentation of the opcodes gives it, and
-- that `operand_len` reads it.
use neo_lang.Prelude.{
  ℕ, ◌+◌, ◌≤◌, ◌<◌, ◌^◌, ◌≡◌, refl, ap, ◌∙◌, List, [], ◌++◌, arith, length, take, drop, Result, ok,
  length-append, length-drop, take-append, le→leb, append_assoc,
}
use neo_lang.Prelude.Bytes.{to_le_bytes, from_le_bytes, length-to_le_bytes, from-to_le_bytes}
use neo_lang.OpCode.{OpCode}
use neo_lang.Instruction.{Instruction}
use neo_lang.Disasm.{DisasmError, slice, need, fixed, counted, operand_len}

-- No operand, `n` bytes, or a payload behind its length in `w` bytes.
pub data Shape : Type 0 where
  bare : Shape
  plain prefixed : ℕ → Shape

unfoldable pub shape : OpCode → Shape
shape OpCode.pushint8 = plain 1
shape OpCode.pushint16 = plain 2
shape OpCode.pushint32 = plain 4
shape OpCode.pushint64 = plain 8
shape OpCode.pushint128 = plain 16
shape OpCode.pushint256 = plain 32
shape OpCode.pusha = plain 4
shape OpCode.pushdata1 = prefixed 1
shape OpCode.pushdata2 = prefixed 2
shape OpCode.pushdata4 = prefixed 4
shape OpCode.jmp = plain 1
shape OpCode.jmpif = plain 1
shape OpCode.jmpifnot = plain 1
shape OpCode.jmpeq = plain 1
shape OpCode.jmpne = plain 1
shape OpCode.jmpgt = plain 1
shape OpCode.jmpge = plain 1
shape OpCode.jmplt = plain 1
shape OpCode.jmple = plain 1
shape OpCode.call = plain 1
shape OpCode.endtry = plain 1
shape OpCode.jmp_l = plain 4
shape OpCode.jmpif_l = plain 4
shape OpCode.jmpifnot_l = plain 4
shape OpCode.jmpeq_l = plain 4
shape OpCode.jmpne_l = plain 4
shape OpCode.jmpgt_l = plain 4
shape OpCode.jmpge_l = plain 4
shape OpCode.jmplt_l = plain 4
shape OpCode.jmple_l = plain 4
shape OpCode.call_l = plain 4
shape OpCode.endtry_l = plain 4
shape OpCode.try = plain 2
shape OpCode.try_l = plain 8
shape OpCode.syscall = plain 4
shape OpCode.callt = plain 2
shape OpCode.initsslot = plain 1
shape OpCode.initslot = plain 2
shape OpCode.ldsfld = plain 1
shape OpCode.stsfld = plain 1
shape OpCode.ldloc = plain 1
shape OpCode.stloc = plain 1
shape OpCode.ldarg = plain 1
shape OpCode.starg = plain 1
shape OpCode.istype = plain 1
shape OpCode.convert = plain 1
shape OpCode.newarray_t = plain 1
shape _ = bare

-- Operand bytes of a shape.
abbrev pub HasShape : Shape → List ℕ → Type 0
HasShape bare bytes = bytes ≡ []
HasShape (plain n) bytes = length bytes ≡ n
HasShape (prefixed w) bytes =
    (payload : List ℕ) × (bytes ≡ to_le_bytes w (length payload) ++ payload)
    × (length payload < 256 ^ w)

-- The operands are those that the opcode takes.
abbrev pub IsWellFormed : Instruction → Type 0
IsWellFormed i = HasShape (shape i.opcode) i.operands

unfoldable pub by_shape : List ℕ → ℕ → Shape → Result DisasmError ℕ
by_shape bytes ostart bare = ok 0
by_shape bytes ostart (plain n) = fixed bytes ostart n
by_shape bytes ostart (prefixed w) = counted bytes ostart w

pub operand_len-by_shape :
    (bytes : List ℕ) (ostart : ℕ) (op : OpCode)
    → operand_len bytes ostart op ≡ by_shape bytes ostart (shape op)
unfolding operand_len by_shape shape
operand_len-by_shape bytes ostart OpCode.pushint8 = refl
operand_len-by_shape bytes ostart _ = refl

pub need-ok : (bytes : List ℕ) (start n : ℕ) → start + n ≤ length bytes → need bytes start n ≡ ok tt
unfolding need
need-ok bytes start n h = rw (le→leb (start + n) (length bytes) h)

module _ (bytes : List ℕ) (ostart : ℕ) (inside : ostart ≤ length bytes) where
  by_shape-reads :
      (s : Shape) (operands rest : List ℕ)
      → drop ostart bytes ≡ operands ++ rest
      → HasShape s operands
      → by_shape bytes ostart s ≡ ok (length operands)
  unfolding by_shape fixed counted
  by_shape-reads bare operands rest e h = rw h refl
  by_shape-reads (plain n) operands rest e h =
      let total = ap length e in
      let fits : ostart + n ≤ length bytes =
        omega (arith, length-append {0} operands rest, length-drop {0} ostart bytes) in
      rw (need-ok bytes ostart n fits) (ap ok (omega arith))
  by_shape-reads (prefixed w) operands rest e (payload, split, small) =
      let total = ap length e in
      let lens = ap length split in
      let prefix = to_le_bytes w (length payload) in
      let fits : ostart + (w + length payload) ≤ length bytes = omega (
        arith,
        length-append {0} operands rest,
        length-drop {0} ostart bytes,
        length-append {0} prefix payload,
        length-to_le_bytes w (length payload),
      ) in
      let starts : slice bytes ostart w ≡ prefix =
        ap (take w) (e ∙ ap (λ t. t ++ rest) split ∙ append_assoc prefix payload rest)
        ∙ ap (λ k. take k (prefix ++ (payload ++ rest)))
            (omega (arith, length-to_le_bytes w (length payload)))
        ∙ take-append prefix (payload ++ rest) in
      let count : from_le_bytes (slice bytes ostart w) ≡ length payload =
        ap from_le_bytes starts ∙ from-to_le_bytes w (length payload) small in
      rw (need-ok bytes ostart w (omega arith)) (
        rw count (
          rw (need-ok bytes ostart (w + length payload) fits) (
            ap ok (
              omega
                (arith, length-append {0} prefix payload, length-to_le_bytes w (length payload))))))

  -- Where the operands of an opcode stand in the script, `operand_len` gives their length.
  pub operand_len-reads :
      (op : OpCode) (operands rest : List ℕ)
      → drop ostart bytes ≡ operands ++ rest
      → HasShape (shape op) operands
      → operand_len bytes ostart op ≡ ok (length operands)
  operand_len-reads op operands rest e h =
      operand_len-by_shape bytes ostart op ∙ by_shape-reads (shape op) operands rest e h
