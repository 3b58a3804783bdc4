-- ===== src/Link/Patching.antt =====
-- A routine after its patches: no instruction moves, and each patched call has its target.
use neo_lang.Prelude.{
  ℕ, ◌+◌, ◌^◌, ◌≡◌, ◌≢◌, refl, sym, ap, ◌∙◌, inl, inr, Option, none, some, List, arith, ◌==◌,
  get_elem?, ok, Bool-cases, eqb→eq, length, set, ltb, >>=-eq-ok, get_elem?-set_ne,
  get_elem?-set_self, lt-get_elem?,
}
use neo_lang.Prelude.Int.{ℤ, Fits, fits, fits→Fits, to_bits, sub_ℕ, add_offset-sub_ℕ}
use neo_lang.Prelude.Bytes.{to_le_bytes, length-to_le_bytes}
use neo_lang.OpCode.{OpCode, ◌==op◌}
use neo_lang.OpCode.TryFrom.{==op→eq}
use neo_lang.Instruction.{Instruction, encoded_len, bytecode_offset_of}
use neo_lang.Instruction.Offsets.{offset-set}
use neo_lang.Builder.{i32_bytes}
use neo_lang.Builder.Pushes.{signed_round_trip}
use neo_lang.Builder.Patches.{long_target}
use neo_lang.Peephole.Slots.{Patch}
use neo_lang.Link.{lookup, found_or, relative_bytes, write_call, apply_patch, apply_patches}

-- What one patch has done: it found the target and a `CALL_L`, and the bytes are the offset's.
pub record Patched (m : List (List ℕ × ℕ)) (start : ℕ) (is : List Instruction) (p : Patch)
    (is' : List Instruction) : Type 0 where
  pub target_pc : ℕ
  pub site : Instruction
  pub target_found : lookup m p.1 ≡ some target_pc
  pub at_index : get_elem? is p.0 ≡ some site
  pub is_call_l : site.opcode ≡ OpCode.call_l
  pub four : length site.operands ≡ 4
  pub near : Fits (2 ^ 31) (sub_ℕ target_pc (start + bytecode_offset_of is p.0))
  pub result :
      set is p.0 (record site {
        operands =
            to_le_bytes 4 (to_bits (2 ^ 31) (sub_ℕ target_pc (start + bytecode_offset_of is p.0)));
      })
      ≡ is'

pub found_or-ok :
    (o : Option ℕ) (e : neo_lang.Link.LinkError) (n : ℕ) → found_or o e ≡ ok n → o ≡ some n
unfolding found_or
found_or-ok none e n h = cc
found_or-ok (some k) e n h = let same : k ≡ n = cc in ap some same

relative_bytes-ok :
    (z : ℤ) (bytes : List ℕ)
    → relative_bytes (i32_bytes z) ≡ ok bytes
    → Fits (2 ^ 31) z × (to_le_bytes 4 (to_bits (2 ^ 31) z) ≡ bytes)
unfolding relative_bytes i32_bytes
relative_bytes-ok z bytes h = elim (Bool-cases (fits (2 ^ 31) z)) [
  | inl e ↦ let h' = rw e at h in (fits→Fits (2 ^ 31) z e, cc)
  | inr e ↦ let h' = rw e at h in absurd (cc)
]

write_call-ok :
    (is is' : List Instruction) (index : ℕ) (o : Option Instruction) (bytes : List ℕ)
    → write_call is index o bytes ≡ ok is'
    → (i : Instruction) × (o ≡ some i)
      × (i.opcode ≡ OpCode.call_l)
      × (length i.operands ≡ 4)
      × (set is index (record i { operands = bytes }) ≡ is')
unfolding write_call
write_call-ok is is' index none bytes h = absurd (cc)
write_call-ok is is' index (some i) bytes h = elim (Bool-cases (i.opcode ==op OpCode.call_l)) [
  | inr e ↦ let h' = rw e at h in absurd (cc)
  | inl e ↦ elim (Bool-cases (length i.operands == 4)) [
    | inr e2 ↦ let h' = rw e2 at (rw e at h) in absurd (cc)
    | inl e2 ↦
        let h' = rw e2 at (rw e at h) in
        (i, refl, ==op→eq i.opcode OpCode.call_l e, eqb→eq (length i.operands) 4 e2, cc)
  ]
]

pub apply_patch-Patched :
    (m : List (List ℕ × ℕ)) (start : ℕ) (is : List Instruction) (p : Patch) (is' : List Instruction)
    → apply_patch m start is p ≡ ok is'
    → Patched m start is p is'
unfolding apply_patch
apply_patch-Patched m start is p is' h =
    let (pc, found, h1) = >>=-eq-ok (found_or (lookup m p.1) _) _ h in
    elim (Bool-cases (ltb (length is) p.0)) [
      | inl e ↦ let h2 = rw e at h1 in absurd (cc)
      | inr e ↦
          let h2 = rw e at h1 in
          let (bytes, enc, h3) =
            >>=-eq-ok (relative_bytes (i32_bytes (sub_ℕ pc (start + bytecode_offset_of is p.0)))) _
              h2 in
          let (near, same) = relative_bytes-ok _ bytes enc in
          let (i, at, op, four, res) = write_call-ok is is' p.0 (get_elem? is p.0) bytes h3 in
          record {
            target_pc = pc;
            site = i;
            target_found = found_or-ok _ _ pc found;
            at_index = at;
            is_call_l = op;
            four = four;
            near = near;
            result = ap (λ b. set is p.0 (record i { operands = b })) same ∙ res;
          }
    ]

-- One patch.
module _ (m : List (List ℕ × ℕ)) (start : ℕ) (is : List Instruction) (p : Patch)
    (is' : List Instruction) (h : Patched m start is p is') where
  open h use {target_pc, site, target_found, at_index, is_call_l, four, near, result}

  abbrev rel : ℤ
  rel = sub_ℕ target_pc (start + bytecode_offset_of is p.0)

  abbrev pub called : Instruction
  called = record site { operands = to_le_bytes 4 (to_bits (2 ^ 31) rel) }

  pub apply_patch-offsets : (k : ℕ) → bytecode_offset_of is' k ≡ bytecode_offset_of is k
  unfolding encoded_len
  apply_patch-offsets k =
      ap (λ t. bytecode_offset_of t k) (sym result)
      ∙ offset-set is p.0 k site called at_index
          (omega (arith, length-to_le_bytes 4 (to_bits (2 ^ 31) rel), four))

  pub apply_patch-others : (k : ℕ) → p.0 ≢ k → get_elem? is' k ≡ get_elem? is k
  apply_patch-others k other =
      ap (λ t. get_elem? t k) (sym result) ∙ get_elem?-set_ne is p.0 k called other

  pub apply_patch-site : get_elem? is' p.0 ≡ some called
  apply_patch-site =
      ap (λ t. get_elem? t p.0) (sym result)
      ∙ get_elem?-set_self is p.0 called (lt-get_elem? is p.0 at_index)

  pub called-target : long_target (start + bytecode_offset_of is p.0) called ≡ some target_pc
  called-target =
      rw (signed_round_trip 4 (2 ^ 31) rel near (omega arith) refl)
        (add_offset-sub_ℕ (start + bytecode_offset_of is p.0) target_pc)
