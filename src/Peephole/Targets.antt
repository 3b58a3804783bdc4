-- ===== src/Peephole/Targets.antt =====
-- Re-encoding keeps the targets of branches. The targets of an instruction are read by the kind of
-- its opcode, as the documentation of the opcodes gives it.
use neo_lang.Prelude.{
  length-drop, take_all, length-take, ne→eqb, ge→ltb, ℕ, suc, ◌^◌, ◌≡◌, refl, sym, ap, ◌∙◌, true,
  false, Option, some, List, [], ◌∷◌, ◌++◌, ◌==◌, ltb, if◌then◌else◌, length, take, drop, ◌>>=?◌,
  arith, inl, inr, map, Bool-cases, Option-cases, eqb→eq, take-append, drop-append, length-append,
}
use neo_lang.Prelude.Int.{
  ℤ, fits, fits→Fits, to_bits, of_bits, of_bits-to_bits, sub_ℕ, add_offset, add_offset-sub_ℕ,
}
use neo_lang.Prelude.Bytes.{to_le_bytes, from_le_bytes, length-to_le_bytes}
use mathlib.Core.Path.{ap₂}
use neo_lang.OpCode.{OpCode, ◌==op◌, byte}
use neo_lang.OpCode.Classes.{is_change_pc_short, is_change_pc_long}
use neo_lang.Instruction.{Instruction, instruction}
use neo_lang.Builder.Pushes.{signed_round_trip}
use neo_lang.Peephole.Relayout.{
  read_i32_le, operand_as_i8, i8_operand, i32_operand, relayout_operand, relayout_single,
  relayout_double, relayout_one,
}

-- No relative operand, or one or two of 1 byte or of 4 bytes.
pub data Kind : Type 0 where
  plain short1 short2 long1 long2 : Kind

unfoldable pub kind : OpCode → Kind
kind OpCode.jmp = short1
kind OpCode.jmpif = short1
kind OpCode.jmpifnot = short1
kind OpCode.jmpeq = short1
kind OpCode.jmpne = short1
kind OpCode.jmpgt = short1
kind OpCode.jmpge = short1
kind OpCode.jmplt = short1
kind OpCode.jmple = short1
kind OpCode.call = short1
kind OpCode.endtry = short1
kind OpCode.jmp_l = long1
kind OpCode.jmpif_l = long1
kind OpCode.jmpifnot_l = long1
kind OpCode.jmpeq_l = long1
kind OpCode.jmpne_l = long1
kind OpCode.jmpgt_l = long1
kind OpCode.jmpge_l = long1
kind OpCode.jmplt_l = long1
kind OpCode.jmple_l = long1
kind OpCode.call_l = long1
kind OpCode.endtry_l = long1
kind OpCode.try = short2
kind OpCode.try_l = long2
kind _ = plain

abbrev pub signed8 : ℕ → ℤ
signed8 = of_bits (2 ^ 7)

abbrev pub signed32 : List ℕ → ℤ
signed32 bytes = of_bits (2 ^ 31) (from_le_bytes bytes)

-- The relative offsets of operand bytes of the right length.
unfoldable pub offsets : Kind → List ℕ → List ℤ
offsets plain bytes = []
offsets short1 (b ∷ []) = signed8 b ∷ []
offsets short1 _ = []
offsets short2 (a ∷ b ∷ []) = signed8 a ∷ signed8 b ∷ []
offsets short2 _ = []
offsets long1 bytes = if length bytes == 4 then signed32 bytes ∷ [] else []
offsets long2 bytes =
    if length bytes == 8 then signed32 (take 4 bytes) ∷ signed32 (drop 4 bytes) ∷ [] else []

-- The absolute targets of an instruction at `pc`, each unless it lies before the script.
unfoldable pub targets : ℕ → Instruction → List (Option ℕ)
targets pc i = map (add_offset pc) (offsets (kind i.opcode) i.operands)

relayout_kind : Kind → (ℕ → Option ℕ) → ℕ → ℕ → Instruction → Option Instruction
relayout_kind plain m o n i = some i
relayout_kind short1 m o n i =
    if length i.operands == 1
    then relayout_single i8_operand m o n i (operand_as_i8 i.operands)
    else some i
relayout_kind short2 m o n i =
    if length i.operands == 2
    then relayout_double i8_operand m o n i (operand_as_i8 i.operands)
        (operand_as_i8 (drop 1 i.operands))
    else some i
relayout_kind long1 m o n i =
    if length i.operands == 4
    then relayout_single i32_operand m o n i (read_i32_le i.operands)
    else some i
relayout_kind long2 m o n i =
    if length i.operands == 8
    then relayout_double i32_operand m o n i (read_i32_le (take 4 i.operands))
        (read_i32_le (drop 4 i.operands))
    else some i

-- The tests of the source find the kind.
relayout_one-kind :
    (m : ℕ → Option ℕ) (o n : ℕ) (op : OpCode) (bytes : List ℕ)
    → relayout_one m o n (instruction op bytes)
      ≡ relayout_kind (kind op) m o n (instruction op bytes)
unfolding relayout_one relayout_kind kind ◌==op◌ byte is_change_pc_short is_change_pc_long
relayout_one-kind m o n OpCode.jmp bytes = refl
relayout_one-kind m o n _ bytes = refl

-- Four bytes are read whole.
pub read_four : (bytes : List ℕ) → length bytes ≡ 4 → read_i32_le bytes ≡ some (signed32 bytes)
unfolding read_i32_le
read_four bytes size =
    let enough : ltb (length bytes) 4 ≡ false = ge→ltb (length bytes) 4 (omega arith) in
    rw (enough, take_all 4 bytes (omega arith)) refl

module _ (m : ℕ → Option ℕ) (o n : ℕ) where
  abbrev moved : ℤ → Option ℕ
  moved r = add_offset o r >>=? m

  operand8 :
      (r : ℤ) (bytes : List ℕ)
      → relayout_operand i8_operand m o n r ≡ some bytes
      → (b : ℕ) × (bytes ≡ b ∷ []) × (add_offset n (signed8 b) ≡ moved r)
  unfolding relayout_operand i8_operand
  operand8 r bytes h = elim (Option-cases (add_offset o r)) [
    | inl e ↦ let h' = rw e at h in cc
    | inr (abs, e) ↦ elim (Option-cases (m abs)) [
      | inl e' ↦ let h' = rw e' at (rw e at h) in cc
      | inr (new_abs, e') ↦ elim (Bool-cases (fits (2 ^ 7) (sub_ℕ new_abs n))) [
        | inl near ↦
            let h' = rw near at (rw e' at (rw e at h)) in
            (
              to_bits (2 ^ 7) (sub_ℕ new_abs n),
              cc,
              rw (e, e', of_bits-to_bits (2 ^ 7) (sub_ℕ new_abs n) (fits→Fits (2 ^ 7) _ near))
                  (add_offset-sub_ℕ n new_abs),
            )
        | inr far ↦ let h' = rw far at (rw e' at (rw e at h)) in cc
      ]
    ]
  ]

  operand32 :
      (r : ℤ) (bytes : List ℕ)
      → relayout_operand i32_operand m o n r ≡ some bytes
      → (length bytes ≡ 4) × (add_offset n (signed32 bytes) ≡ moved r)
  unfolding relayout_operand i32_operand
  operand32 r bytes h = elim (Option-cases (add_offset o r)) [
    | inl e ↦ let h' = rw e at h in cc
    | inr (abs, e) ↦ elim (Option-cases (m abs)) [
      | inl e' ↦ let h' = rw e' at (rw e at h) in cc
      | inr (new_abs, e') ↦ elim (Bool-cases (fits (2 ^ 31) (sub_ℕ new_abs n))) [
        | inl near ↦
            let h' = rw near at (rw e' at (rw e at h)) in
            let z = sub_ℕ new_abs n in
            let same : to_le_bytes 4 (to_bits (2 ^ 31) z) ≡ bytes = cc in
            rw (← same) (
              length-to_le_bytes 4 (to_bits (2 ^ 31) z),
              rw
                  (
                    e,
                    e',
                    signed_round_trip 4 (2 ^ 31) z (fits→Fits (2 ^ 31) z near) (omega arith) refl,
                  )
                  (add_offset-sub_ℕ n new_abs),
            )
        | inr far ↦ let h' = rw far at (rw e' at (rw e at h)) in cc
      ]
    ]
  ]

  -- The new operand bytes of an instruction of kind `k`: as many as before, with the old targets
  -- mapped.
  abbrev Moved : Kind → List ℕ → List ℕ → Type 0
  Moved k old new =
      (length new ≡ length old)
      × (map (add_offset n) (offsets k new)
          ≡ map (λ t. t >>=? m) (map (add_offset o) (offsets k old)))

  abbrev Rewritten : Kind → OpCode → List ℕ → Instruction → Type 0
  Rewritten k op old i' = (new : List ℕ) × (instruction op new ≡ i') × Moved k old new

  short1_moved :
      (op : OpCode) (old : List ℕ) (i' : Instruction)
      → relayout_kind short1 m o n (instruction op old) ≡ some i'
      → Rewritten short1 op old i'
  unfolding relayout_kind relayout_single operand_as_i8 offsets
  short1_moved op [] i' h = ([], cc, (refl, refl))
  short1_moved op (b ∷ []) i' h =
      elim (Option-cases (relayout_operand i8_operand m o n (signed8 b))) [
        | inl e ↦ let h' = rw e at h in cc
        | inr (new, e) ↦
            let h' = rw e at h in
            let (c, shape, target) = operand8 (signed8 b) new e in
            (c ∷ [], cc, (refl, ap (λ t. t ∷ []) target))
      ]
  short1_moved op (b ∷ c ∷ r) i' h =
      let off : (suc (suc (length r)) == 1) ≡ false = ne→eqb _ 1 (omega arith) in
      let h' = rw off at h in (b ∷ c ∷ r, cc, (refl, refl))

  short2_moved :
      (op : OpCode) (old : List ℕ) (i' : Instruction)
      → relayout_kind short2 m o n (instruction op old) ≡ some i'
      → Rewritten short2 op old i'
  unfolding relayout_kind relayout_double operand_as_i8 offsets
  short2_moved op [] i' h = ([], cc, (refl, refl))
  short2_moved op (b ∷ []) i' h = (b ∷ [], cc, (refl, refl))
  short2_moved op (a ∷ b ∷ []) i' h =
      elim (Option-cases (relayout_operand i8_operand m o n (signed8 a))) [
        | inl e ↦ let h' = rw e at h in cc
        | inr (new, e) ↦ elim (Option-cases (relayout_operand i8_operand m o n (signed8 b))) [
          | inl e' ↦ let h' = rw e' at (rw e at h) in cc
          | inr (more, e') ↦
              let h' = rw e' at (rw e at h) in
              let (c, shape, target) = operand8 (signed8 a) new e in
              let (d, shape', target') = operand8 (signed8 b) more e' in
              (c ∷ d ∷ [], cc, (refl, ap₂ (λ t u. t ∷ u ∷ []) target target'))
        ]
      ]
  short2_moved op (a ∷ b ∷ c ∷ r) i' h =
      let off : (suc (suc (suc (length r))) == 2) ≡ false = ne→eqb _ 2 (omega arith) in
      let h' = rw off at h in (a ∷ b ∷ c ∷ r, cc, (refl, refl))

  long1_moved :
      (op : OpCode) (old : List ℕ) (i' : Instruction)
      → relayout_kind long1 m o n (instruction op old) ≡ some i'
      → Rewritten long1 op old i'
  unfolding relayout_kind relayout_single read_i32_le offsets
  long1_moved op old i' h = elim (Bool-cases (length old == 4)) [
    | inr off ↦ let h' = rw off at h in (old, cc, (refl, rw off refl))
    | inl four ↦
        let size : length old ≡ 4 = eqb→eq _ _ four in
        let enough : ltb (length old) 4 ≡ false = ge→ltb (length old) 4 (omega arith) in
        let whole : take 4 old ≡ old = take_all 4 old (omega arith) in
        elim (Option-cases (relayout_operand i32_operand m o n (signed32 old))) [
          | inl e ↦ let h' = rw e at (rw whole at (rw enough at (rw four at h))) in cc
          | inr (new, e) ↦
              let h' = rw e at (rw whole at (rw enough at (rw four at h))) in
              let (len, target) = operand32 (signed32 old) new e in
              let new_four : (length new == 4) ≡ true = rw len refl in
              (new, cc, (len ∙ sym size, rw (four, new_four) (ap (λ t. t ∷ []) target)))
        ]
  ]

  long2_moved :
      (op : OpCode) (old : List ℕ) (i' : Instruction)
      → relayout_kind long2 m o n (instruction op old) ≡ some i'
      → Rewritten long2 op old i'
  unfolding relayout_kind relayout_double offsets
  long2_moved op old i' h = elim (Bool-cases (length old == 8)) [
    | inr off ↦ let h' = rw off at h in (old, cc, (refl, rw off refl))
    | inl eight ↦
        let size : length old ≡ 8 = eqb→eq _ _ eight in
        let first = read_four (take 4 old) (length-take 4 old (omega arith)) in
        let second = read_four (drop 4 old) (length-drop 4 old ∙ omega arith) in
        elim (Option-cases (relayout_operand i32_operand m o n (signed32 (take 4 old)))) [
          | inl e ↦ let h' = rw e at (rw second at (rw first at (rw eight at h))) in cc
          | inr (new, e) ↦
              elim (Option-cases (relayout_operand i32_operand m o n (signed32 (drop 4 old)))) [
                | inl e' ↦
                    let h' = rw e' at (rw e at (rw second at (rw first at (rw eight at h)))) in cc
                | inr (more, e') ↦
                    let h' = rw e' at (rw e at (rw second at (rw first at (rw eight at h)))) in
                    let (len, target) = operand32 (signed32 (take 4 old)) new e in
                    let (len', target') = operand32 (signed32 (drop 4 old)) more e' in
                    let total : length (new ++ more) ≡ 8 =
                      omega (arith, length-append {0} new more) in
                    let new_eight : (length (new ++ more) == 8) ≡ true = rw total refl in
                    let fst : take 4 (new ++ more) ≡ new =
                      ap (λ k. take k (new ++ more)) (sym len) ∙ take-append new more in
                    let snd : drop 4 (new ++ more) ≡ more =
                      ap (λ k. drop k (new ++ more)) (sym len) ∙ drop-append new more in
                    (
                      new ++ more,
                      cc,
                      (
                        total ∙ sym size,
                        rw (eight, new_eight)
                            (rw (fst, snd) (ap₂ (λ t u. t ∷ u ∷ []) target target')),
                      ),
                    )
              ]
        ]
  ]

  kind_moved :
      (k : Kind) (op : OpCode) (old : List ℕ) (i' : Instruction)
      → relayout_kind k m o n (instruction op old) ≡ some i'
      → Rewritten k op old i'
  unfolding relayout_kind offsets
  kind_moved plain op old i' h = (old, cc, (refl, refl))
  kind_moved short1 op old i' h = short1_moved op old i' h
  kind_moved short2 op old i' h = short2_moved op old i' h
  kind_moved long1 op old i' h = long1_moved op old i' h
  kind_moved long2 op old i' h = long2_moved op old i' h

-- Re-encoding an instruction that moves from `o` to `n` keeps its opcode and its length, and each
-- of its targets at `n` is the old target mapped by `m`.
pub relayout_one-targets :
    (m : ℕ → Option ℕ) (o n : ℕ) (i i' : Instruction)
    → relayout_one m o n i ≡ some i'
    → (i'.opcode ≡ i.opcode)
      × (length i'.operands ≡ length i.operands)
      × (targets n i' ≡ map (λ t. t >>=? m) (targets o i))
unfolding targets
relayout_one-targets m o n i i' h =
    let (new, same, (len, moved_all)) =
      kind_moved m o n (kind i.opcode) i.opcode i.operands i'
        (sym (relayout_one-kind m o n i.opcode i.operands) ∙ h) in
    rw (← same) (refl, len, moved_all)
