-- ===== src/Disasm/RoundTrip.antt =====
-- Decoding undoes encoding.
use neo_lang.Prelude.{
  Result, ℕ, zero, suc, ◌+◌, ◌≤◌, ◌<◌, ◌≡◌, refl, ap, sym, ◌∙◌, List, [], ◌∷◌, ◌++◌, arith, length,
  take, drop, ok, length-append, length-drop, take-append, append_assoc, append-nil, drop-drop,
  get_elem?, get_elem?-drop, All, Bool-cases, ltb, ltb→ge, drop-all, drop-get_elem?,
  take-append-drop, Option-cases, inl, inr, some, >>=-eq-ok, lt→ltb, ge→ltb,
}
use mathlib.Core.Path.{subst₂}
use neo_lang.OpCode.{byte}
use neo_lang.OpCode.TryFrom.{TryFromPrimitive}
use neo_lang.Instruction.{Instruction, instruction, encoded_len, to_bytes, encode, bytecode_len}
use neo_lang.Instruction.Offsets.{length-encode, length-to_bytes, encoded_len-pos, drop-encoded_len}
use neo_lang.Disasm.{DisasmError, slice, operand_len, decode_one, decode_loop, decode_script}
use neo_lang.Disasm.Shapes.{IsWellFormed, operand_len-reads}

length-le-bytecode_len : (is : List Instruction) → length is ≤ bytecode_len is
unfolding bytecode_len encoded_len
length-le-bytecode_len [] = omega arith
length-le-bytecode_len (i ∷ is) = omega (arith, length-le-bytecode_len is)

encode-push :
    (is : List Instruction) (i : Instruction) → encode (is ++ i ∷ []) ≡ encode is ++ to_bytes i
unfolding encode
encode-push [] i = append-nil (to_bytes i)
encode-push (x ∷ is) i =
    ap (λ t. to_bytes x ++ t) (encode-push is i)
    ∙ sym (append_assoc (to_bytes x) (encode is) (to_bytes i))

module _ (reader : TryFromPrimitive) (bytes : List ℕ) where
  -- An instruction that stands at `ip` is decoded, with its size.
  decode_one-reads :
      (ip : ℕ) (i : Instruction) (rest : List ℕ)
      → drop ip bytes ≡ to_bytes i ++ rest
      → IsWellFormed i
      → decode_one reader bytes ip ≡ ok (i, encoded_len i)
  unfolding decode_one to_bytes encoded_len
  decode_one-reads ip i rest e h =
      let first : get_elem? bytes ip ≡ some (byte i.opcode) =
        get_elem?-drop bytes ip ∙ ap (λ t. get_elem? t 0) e in
      let total = ap length e in
      let inside : ip + 1 ≤ length bytes = omega (arith, length-drop {0} ip bytes) in
      let after : drop (ip + 1) bytes ≡ i.operands ++ rest = drop-drop bytes ip 1 ∙ ap (drop 1) e in
      let n = operand_len-reads bytes (ip + 1) inside i.opcode i.operands rest after h in
      let cut : slice bytes (ip + 1) (length i.operands) ≡ i.operands =
        ap (take (length i.operands)) after ∙ take-append i.operands rest in
      rw first (rw (reader.try_from-byte i.opcode) (rw n (rw cut refl)))

  decode_loop-reads :
      (fuel ip : ℕ) (out is : List Instruction)
      → drop ip bytes ≡ encode is
      → length is < fuel
      → All IsWellFormed is
      → decode_loop reader fuel bytes ip out ≡ ok (out ++ is)
  unfolding decode_loop encode
  decode_loop-reads zero ip out is e lt h = absurd (omega arith)
  decode_loop-reads (suc fuel) ip out [] e lt h =
      let total = ap length e in
      let done : length bytes ≤ ip = omega (arith, length-drop {0} ip bytes) in
      rw (ge→ltb ip (length bytes) done) (ap ok (sym (append-nil out)))
  decode_loop-reads (suc fuel) ip out (i ∷ is) e lt (hi, h) =
      let total = ap length e in
      let more : ip < length bytes = omega (
        arith,
        length-drop {0} ip bytes,
        length-append {0} (to_bytes i) (encode is),
        length-to_bytes i,
        encoded_len-pos i,
      ) in
      let after : drop (ip + encoded_len i) bytes ≡ encode is =
        drop-drop bytes ip (encoded_len i)
        ∙ ap (drop (encoded_len i)) e
        ∙ drop-encoded_len i (encode is) in
      rw (lt→ltb ip (length bytes) more) (
        rw (decode_one-reads ip i (encode is) e hi) (
          decode_loop-reads fuel (ip + encoded_len i) (out ++ i ∷ []) is after (omega arith) h
          ∙ ap ok (append_assoc out (i ∷ []) is)))

  operand_bytes :
      (ip k : ℕ) → slice bytes (ip + 1) k ++ drop (ip + (1 + k)) bytes ≡ drop (suc ip) bytes
  operand_bytes ip k =
      let next : ip + 1 ≡ suc ip = omega arith in
      let sum : ip + (1 + k) ≡ suc ip + k = omega arith in
      rw (next, sum, drop-drop bytes (suc ip) k) (take-append-drop k (drop (suc ip) bytes))

  -- The bytes of a decoded instruction, before what follows it, are those at its offset.
  decode_one-bytes :
      (ip : ℕ) (i : Instruction) (n : ℕ)
      → decode_one reader bytes ip ≡ ok (i, n)
      → to_bytes i ++ drop (ip + n) bytes ≡ drop ip bytes
  unfolding decode_one to_bytes
  decode_one-bytes ip i n h = elim (Option-cases (get_elem? bytes ip)) [
    | inl e ↦ let bad = rw e at h in cc
    | inr (b, e) ↦ elim (Option-cases (reader.try_from b)) [
      | inl u ↦ let bad = rw u at (rw e at h) in cc
      | inr (op, t) ↦
          let h' = rw t at (rw e at h) in
          let (k, len, same) = >>=-eq-ok (operand_len bytes (ip + 1) op) _ h' in
          let eq_i : instruction op (slice bytes (ip + 1) k) ≡ i = cc in
          let eq_n : 1 + k ≡ n = cc in
          subst₂ (λ x m. to_bytes x ++ drop (ip + m) bytes ≡ drop ip bytes) eq_i eq_n
            (rw (reader.byte-try_from b op t, drop-get_elem? bytes ip e)
              (ap (λ s. b ∷ s) (operand_bytes ip k)))
    ]
  ]

  decode_loop-bytes :
      (fuel ip : ℕ) (out is : List Instruction)
      → decode_loop reader fuel bytes ip out ≡ ok is
      → encode is ≡ encode out ++ drop ip bytes
  unfolding decode_loop
  decode_loop-bytes zero ip out is h = cc
  decode_loop-bytes (suc fuel) ip out is h = elim (Bool-cases (ltb ip (length bytes))) [
    | inl more ↦
        let ((i, n), one, h') = >>=-eq-ok (decode_one reader bytes ip) _ (rw more at h) in
        decode_loop-bytes fuel (ip + n) (out ++ i ∷ []) is h'
        ∙ ap (λ t. t ++ drop (ip + n) bytes) (encode-push out i)
        ∙ append_assoc (encode out) (to_bytes i) (drop (ip + n) bytes)
        ∙ ap (λ t. encode out ++ t) (decode_one-bytes ip i n one)
    | inr done ↦
        let h' : ◌≡◌ {A = Result DisasmError (List Instruction)} (ok out) (ok is) = rw done at h in
        let same : out ≡ is = cc in
        let nothing = drop-all bytes ip (ltb→ge ip (length bytes) done) in
        rw (← same, nothing) (sym (append-nil (encode out)))
  ]

-- Decoding the bytes of well-formed instructions gives the instructions back.
pub decode_script-encode :
    (reader : TryFromPrimitive) (is : List Instruction)
    → All IsWellFormed is
    → decode_script reader (encode is) ≡ ok is
unfolding decode_script
decode_script-encode reader is h =
    decode_loop-reads reader (encode is) (suc (length (encode is))) 0 [] is refl
      (omega (arith, length-encode is, length-le-bytecode_len is)) h

-- What decodes is encoded by the same bytes: no script loses or gains a byte.
pub encode-decode_script :
    (reader : TryFromPrimitive) (bytes : List ℕ) (is : List Instruction)
    → decode_script reader bytes ≡ ok is
    → encode is ≡ bytes
unfolding decode_script encode
encode-decode_script reader bytes is h =
    decode_loop-bytes reader bytes (suc (length bytes)) 0 [] is h
