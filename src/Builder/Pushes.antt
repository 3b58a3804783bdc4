-- ===== src/Builder/Pushes.antt =====
-- What the push instructions mean. `int_value` and `data_value` read an instruction as the NeoVM
-- does, by the documentation of the opcodes.
use neo_lang.Prelude.{
  eqb_refl, eqb_refl, drop-append, take-append, le→leb, ◌∙◌, leb→le, leb, sym, ◌++◌, ℕ, zero, suc,
  ◌<◌, ◌^◌, ◌≡◌, refl, ap, inl, inr, Option, none, some, List, [], arith, if◌then◌else◌, length,
  take, drop, ◌*◌, ◌==◌, Bool-cases, Option-cases,
}
use neo_lang.Prelude.Int.{
  ℤ, pos, negsuc, Fits, fits, fits→Fits, to_bits, of_bits, of_bits-to_bits, to_bits-lt,
}
use neo_lang.Prelude.Bytes.{to_le_bytes, from_le_bytes, from-to_le_bytes, length-to_le_bytes}
use neo_lang.OpCode.{OpCode}
use neo_lang.Instruction.{Instruction, instruction}
use neo_lang.Builder.{push_small, push_wide, push_int_instruction, push_data_instruction}

-- A two's complement number in exactly `w` bytes, `2 * h` being the number of its values.
sized : ℕ → ℕ → List ℕ → Option ℤ
sized w h bytes = if length bytes == w then some (of_bits h (from_le_bytes bytes)) else none

pub int_of : OpCode → List ℕ → Option ℤ
int_of OpCode.pushm1 [] = some (negsuc 0)
int_of OpCode.push0 [] = some (pos 0)
int_of OpCode.push1 [] = some (pos 1)
int_of OpCode.push2 [] = some (pos 2)
int_of OpCode.push3 [] = some (pos 3)
int_of OpCode.push4 [] = some (pos 4)
int_of OpCode.push5 [] = some (pos 5)
int_of OpCode.push6 [] = some (pos 6)
int_of OpCode.push7 [] = some (pos 7)
int_of OpCode.push8 [] = some (pos 8)
int_of OpCode.push9 [] = some (pos 9)
int_of OpCode.push10 [] = some (pos 10)
int_of OpCode.push11 [] = some (pos 11)
int_of OpCode.push12 [] = some (pos 12)
int_of OpCode.push13 [] = some (pos 13)
int_of OpCode.push14 [] = some (pos 14)
int_of OpCode.push15 [] = some (pos 15)
int_of OpCode.push16 [] = some (pos 16)
int_of OpCode.pushint8 bytes = sized 1 (2 ^ 7) bytes
int_of OpCode.pushint16 bytes = sized 2 (2 ^ 15) bytes
int_of OpCode.pushint32 bytes = sized 4 (2 ^ 31) bytes
int_of OpCode.pushint64 bytes = sized 8 (2 ^ 63) bytes
int_of OpCode.pushint128 bytes = sized 16 (2 ^ 127) bytes
int_of OpCode.pushint256 bytes = sized 32 (2 ^ 255) bytes
int_of _ bytes = none

-- The integer that an instruction pushes; `none` where the operands are not as many bytes as the
-- opcode takes.
unfoldable pub int_value : Instruction → Option ℤ
unfolding int_of sized
int_value i = int_of i.opcode i.operands

-- A length in `w` bytes and a payload that is as long as it says.
counted : ℕ → List ℕ → Option (List ℕ)
counted w bytes =
    if from_le_bytes (take w bytes) == length (drop w bytes) then some (drop w bytes) else none

data_of : OpCode → List ℕ → Option (List ℕ)
data_of OpCode.pushdata1 bytes = counted 1 bytes
data_of OpCode.pushdata2 bytes = counted 2 bytes
data_of OpCode.pushdata4 bytes = counted 4 bytes
data_of _ bytes = none

-- The bytes that an instruction pushes.
unfoldable pub data_value : Instruction → Option (List ℕ)
unfolding data_of counted
data_value i = data_of i.opcode i.operands

push_small-value : (n : ℕ) (op : OpCode) → push_small n ≡ some op → int_of op [] ≡ some (pos n)
unfolding push_small int_of
push_small-value n op h = ground arith

-- A signed integer comes back from its bytes.
pub signed_round_trip :
    (w h : ℕ) (z : ℤ)
    → Fits h z
    → 0 < h
    → 2 * h ≡ 256 ^ w
    → of_bits h (from_le_bytes (to_le_bytes w (to_bits h z))) ≡ z
signed_round_trip w h z f p e =
    let lt = to_bits-lt h z p in
    let same : from_le_bytes (to_le_bytes w (to_bits h z)) ≡ to_bits h z =
      from-to_le_bytes w (to_bits h z) (rw e at lt) in
    rw same (of_bits-to_bits h z f)

-- An integer that fits comes back from a push of its width.
sized_round_trip :
    (w h : ℕ) (z : ℤ)
    → Fits h z
    → 0 < h
    → 2 * h ≡ 256 ^ w
    → sized w h (to_le_bytes w (to_bits h z)) ≡ some z
unfolding sized
sized_round_trip w h z f p e =
    rw (length-to_le_bytes w (to_bits h z))
      (rw (eqb_refl w) (ap some (signed_round_trip w h z f p e)))

push_wide-value : (n : ℤ) → Fits (2 ^ 63) n → int_value (push_wide n) ≡ some n
unfolding push_wide int_value
push_wide-value n f = elim (Bool-cases (fits (2 ^ 7) n)) [
  | inl e ↦ rw e (sized_round_trip 1 (2 ^ 7) n (fits→Fits (2 ^ 7) n e) (omega arith) refl)
  | inr e7 ↦ rw e7 (elim (Bool-cases (fits (2 ^ 15) n)) [
    | inl e ↦ rw e (sized_round_trip 2 (2 ^ 15) n (fits→Fits (2 ^ 15) n e) (omega arith) refl)
    | inr e15 ↦ rw e15 (elim (Bool-cases (fits (2 ^ 31) n)) [
      | inl e ↦ rw e (sized_round_trip 4 (2 ^ 31) n (fits→Fits (2 ^ 31) n e) (omega arith) refl)
      | inr e ↦ rw e (sized_round_trip 8 (2 ^ 63) n f (omega arith) refl)
    ])
  ])
]

-- The instruction that `push_int` emits for an i64 has the operand bytes that its opcode takes, and
-- pushes that integer.
pub push_int-value : (n : ℤ) → Fits (2 ^ 63) n → int_value (push_int_instruction n) ≡ some n
unfolding push_int_instruction int_value
push_int-value (negsuc zero) f = refl
push_int-value (negsuc (suc n)) f = push_wide-value (negsuc (suc n)) f
push_int-value (pos n) f = elim (Option-cases (push_small n)) [
  | inl e ↦ rw (e, push_int_instruction) (push_wide-value (pos n) f)
  | inr (op, e) ↦ rw (e, push_int_instruction) (push_small-value n op e)
]

counted-prefixed :
    (w : ℕ) (payload : List ℕ)
    → length payload < 256 ^ w
    → counted w (to_le_bytes w (length payload) ++ payload) ≡ some payload
unfolding counted
counted-prefixed w payload small =
    let prefix = to_le_bytes w (length payload) in
    let size = length-to_le_bytes w (length payload) in
    let front : take w (prefix ++ payload) ≡ prefix =
      ap (λ k. take k (prefix ++ payload)) (sym size) ∙ take-append prefix payload in
    let back : drop w (prefix ++ payload) ≡ payload =
      ap (λ k. drop k (prefix ++ payload)) (sym size) ∙ drop-append prefix payload in
    let value : from_le_bytes prefix ≡ length payload = from-to_le_bytes w (length payload) small in
    rw front (rw back (rw value (rw (eqb_refl (length payload)) refl)))

-- The instruction that `push_data` emits pushes the given bytes, whose number is below 2^32; the
-- source panics for more.
pub push_data-value :
    (bytes : List ℕ)
    → length bytes < 2 ^ 32
    → (i : Instruction) × (push_data_instruction bytes ≡ some i) × (data_value i ≡ some bytes)
unfolding push_data_instruction data_value
push_data-value bytes small = elim (Bool-cases (leb (length bytes) 0xff)) [
  | inl e ↦ (
    instruction OpCode.pushdata1 (to_le_bytes 1 (length bytes) ++ bytes),
    rw e refl,
    counted-prefixed 1 bytes (omega (arith, leb→le (length bytes) 0xff e)),
  )
  | inr e1 ↦ elim (Bool-cases (leb (length bytes) 0xffff)) [
    | inl e ↦ (
      instruction OpCode.pushdata2 (to_le_bytes 2 (length bytes) ++ bytes),
      rw (e1, e) refl,
      counted-prefixed 2 bytes (omega (arith, leb→le (length bytes) 0xffff e)),
    )
    | inr e2 ↦ (
      instruction OpCode.pushdata4 (to_le_bytes 4 (length bytes) ++ bytes),
      rw (e1, e2, le→leb (length bytes) 0xffff_ffff (omega arith)) refl,
      counted-prefixed 4 bytes (omega arith),
    )
  ]
]
