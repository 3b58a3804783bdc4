-- ===== src/Peephole/Offsets.antt =====
-- Offsets of instructions before and after re-encoding.
use neo_lang.Prelude.{
  ℕ, zero, suc, ◌+◌, ◌<◌, ◌≡◌, refl, sym, ap, ◌∙◌, Option, some, List, [], ◌∷◌, arith, length,
  get_elem?, inl, inr, Option-cases, map,
}
use mathlib.Core.Path.{ap₂}
use neo_lang.Instruction.{Instruction, encoded_len, bytecode_len, bytecode_offset_of}
use neo_lang.Peephole.Relayout.{prefix_from, prefix_byte_offsets, relayout_one}
use neo_lang.Peephole.Targets.{relayout_one-targets}
use neo_lang.Peephole.Passes.{relayout_pc_relatives}

prefix_from-at :
    (is : List Instruction) (pc k : ℕ)
    → k < length is
    → get_elem? (prefix_from pc is) k ≡ some (pc + bytecode_offset_of is k)
unfolding prefix_from bytecode_offset_of bytecode_len
prefix_from-at [] pc k h = elim h [ ]
prefix_from-at (i ∷ is) pc zero h = ap some (omega arith)
prefix_from-at (i ∷ is) pc (suc k) h =
    prefix_from-at is (pc + encoded_len i) k (omega arith) ∙ ap some (omega arith)

-- The table of prefixes holds the offsets.
pub prefix_byte_offsets-at :
    (is : List Instruction) (k : ℕ)
    → k < length is
    → get_elem? (prefix_byte_offsets is) k ≡ some (bytecode_offset_of is k)
unfolding prefix_byte_offsets
prefix_byte_offsets-at is k h = prefix_from-at is 0 k h ∙ ap some (omega arith)

prefix_from-length : (is : List Instruction) (pc : ℕ) → length (prefix_from pc is) ≡ length is
unfolding prefix_from
prefix_from-length [] pc = refl
prefix_from-length (i ∷ is) pc = ap suc (prefix_from-length is (pc + encoded_len i))

pub length-prefix_byte_offsets :
    (is : List Instruction) → length (prefix_byte_offsets is) ≡ length is
unfolding prefix_byte_offsets
length-prefix_byte_offsets is = prefix_from-length is 0

pub relayout_one-encoded_len :
    (m : ℕ → Option ℕ) (o n : ℕ) (i i' : Instruction)
    → relayout_one m o n i ≡ some i'
    → encoded_len i' ≡ encoded_len i
unfolding encoded_len
relayout_one-encoded_len m o n i i' h = omega (arith, (relayout_one-targets m o n i i' h).1)

module _ (m : ℕ → Option ℕ) where
  -- One step of the loop that succeeds.
  relayout_step :
      (o n : ℕ) (olds news : List ℕ) (i : Instruction) (is is' : List Instruction)
      → relayout_pc_relatives m (o ∷ olds) (n ∷ news) (i ∷ is) ≡ some is'
      → (i' : Instruction) × (rest : List Instruction) × (relayout_one m o n i ≡ some i')
        × (relayout_pc_relatives m olds news is ≡ some rest)
        × (i' ∷ rest ≡ is')
  unfolding relayout_pc_relatives
  relayout_step o n olds news i is is' h = elim (Option-cases (relayout_one m o n i)) [
    | inl e ↦ let h' = rw e at h in cc
    | inr (i', e) ↦ elim (Option-cases (relayout_pc_relatives m olds news is)) [
      | inl e' ↦ let h' = rw e' at (rw e at h) in cc
      | inr (rest, e') ↦ let h' = rw e' at (rw e at h) in (i', rest, e, e', cc)
    ]
  ]

  -- Re-encoding treats each instruction by its own offsets.
  pub relayout_pc_relatives-at :
      (olds news : List ℕ) (is is' : List Instruction) (k o n : ℕ) (i : Instruction)
      → relayout_pc_relatives m olds news is ≡ some is'
      → get_elem? olds k ≡ some o
      → get_elem? news k ≡ some n
      → get_elem? is k ≡ some i
      → (i' : Instruction) × (get_elem? is' k ≡ some i') × (relayout_one m o n i ≡ some i')
  relayout_pc_relatives-at [] news is is' k o n i h ho hn hi = absurd (cc)
  relayout_pc_relatives-at (a ∷ olds) [] is is' k o n i h ho hn hi = absurd (cc)
  relayout_pc_relatives-at (a ∷ olds) (b ∷ news) [] is' k o n i h ho hn hi = absurd (cc)
  relayout_pc_relatives-at (a ∷ olds) (b ∷ news) (x ∷ is) is' zero o n i h ho hn hi =
      let (x', rest, one, more, shape) = relayout_step a b olds news x is is' h in
      let one' : relayout_one m o n i ≡ some x' =
        let ea : a ≡ o = cc in
        let eb : b ≡ n = cc in let ex : x ≡ i = cc in rw (← ea, ← eb, ← ex) one in
      (x', ap (λ t. get_elem? t 0) (sym shape), one')
  relayout_pc_relatives-at (a ∷ olds) (b ∷ news) (x ∷ is) is' (suc k) o n i h ho hn hi =
      let (x', rest, one, more, shape) = relayout_step a b olds news x is is' h in
      let (i', here, one') = relayout_pc_relatives-at olds news is rest k o n i more ho hn hi in
      (i', ap (λ t. get_elem? t (suc k)) (sym shape) ∙ here, one')

  -- Re-encoding moves no instruction.
  pub relayout_pc_relatives-offsets :
      (olds news : List ℕ) (is is' : List Instruction) (k : ℕ)
      → relayout_pc_relatives m olds news is ≡ some is'
      → (length is' ≡ length is) × (bytecode_offset_of is' k ≡ bytecode_offset_of is k)
  unfolding relayout_pc_relatives bytecode_offset_of bytecode_len
  relayout_pc_relatives-offsets [] news is is' k h = let e : is ≡ is' = cc in rw (← e) (refl, refl)
  relayout_pc_relatives-offsets (o ∷ olds) [] is is' k h =
      let e : is ≡ is' = cc in rw (← e) (refl, refl)
  relayout_pc_relatives-offsets (o ∷ olds) (n ∷ news) [] is' k h =
      let e : [] ≡ is' = cc in rw (← e) (refl, refl)
  relayout_pc_relatives-offsets (o ∷ olds) (n ∷ news) (i ∷ is) is' zero h =
      let (i', rest, one, more, shape) = relayout_step o n olds news i is is' h in
      let (len, _) = relayout_pc_relatives-offsets olds news is rest 0 more in
      rw (← shape) (ap suc len, refl)
  relayout_pc_relatives-offsets (o ∷ olds) (n ∷ news) (i ∷ is) is' (suc k) h =
      let (i', rest, one, more, shape) = relayout_step o n olds news i is is' h in
      let (len, off) = relayout_pc_relatives-offsets olds news is rest k more in
      rw (← shape) (ap suc len, ap₂ ◌+◌ (relayout_one-encoded_len m o n i i' one) off)

  -- Re-encoding keeps the opcode and the operands' length at every index.
  pub relayout_pc_relatives-keeps :
      (olds news : List ℕ) (is is' : List Instruction) (k : ℕ) (i : Instruction)
      → relayout_pc_relatives m olds news is ≡ some is'
      → get_elem? is k ≡ some i
      → (i' : Instruction) × (get_elem? is' k ≡ some i')
        × (i'.opcode ≡ i.opcode)
        × (length i'.operands ≡ length i.operands)
  unfolding relayout_pc_relatives
  relayout_pc_relatives-keeps [] news is is' k i h at =
      let e : is ≡ is' = cc in (i, ap (λ t. get_elem? t k) (sym e) ∙ at, refl, refl)
  relayout_pc_relatives-keeps (o ∷ olds) [] is is' k i h at =
      let e : is ≡ is' = cc in (i, ap (λ t. get_elem? t k) (sym e) ∙ at, refl, refl)
  relayout_pc_relatives-keeps (o ∷ olds) (n ∷ news) [] is' k i h at = absurd (cc)
  relayout_pc_relatives-keeps (o ∷ olds) (n ∷ news) (x ∷ is) is' zero i h at =
      let (x', rest, one, more, shape) = relayout_step o n olds news x is is' h in
      let (op, len, _) = relayout_one-targets m o n x x' one in
      let same : x ≡ i = cc in
      (
        x',
        ap (λ t. get_elem? t 0) (sym shape),
        op ∙ ap (λ t. t.opcode) same,
        len ∙ ap (λ t. length t.operands) same,
      )
  relayout_pc_relatives-keeps (o ∷ olds) (n ∷ news) (x ∷ is) is' (suc k) i h at =
      let (x', rest, one, more, shape) = relayout_step o n olds news x is is' h in
      let (i', here, op, len) = relayout_pc_relatives-keeps olds news is rest k i more at in
      (i', ap (λ t. get_elem? t (suc k)) (sym shape) ∙ here, op, len)

  -- Re-encoding keeps the opcodes.
  pub relayout_pc_relatives-opcodes :
      (olds news : List ℕ) (is is' : List Instruction)
      → relayout_pc_relatives m olds news is ≡ some is'
      → map (λ i. i.opcode) is' ≡ map (λ i. i.opcode) is
  unfolding relayout_pc_relatives
  relayout_pc_relatives-opcodes [] news is is' h = let e : is ≡ is' = cc in rw (← e) refl
  relayout_pc_relatives-opcodes (o ∷ olds) [] is is' h = let e : is ≡ is' = cc in rw (← e) refl
  relayout_pc_relatives-opcodes (o ∷ olds) (n ∷ news) [] is' h =
      let e : [] ≡ is' = cc in rw (← e) refl
  relayout_pc_relatives-opcodes (o ∷ olds) (n ∷ news) (x ∷ is) is' h =
      let (x', rest, one, more, shape) = relayout_step o n olds news x is is' h in
      let (op, _, _) = relayout_one-targets m o n x x' one in
      rw (← shape) (ap₂ ◌∷◌ op (relayout_pc_relatives-opcodes olds news is rest more))
