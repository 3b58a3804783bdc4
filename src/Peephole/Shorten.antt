-- ===== src/Peephole/Shorten.antt =====
-- Shortening a branch to its 1-byte form keeps where branches land.
use neo_lang.Prelude.{
  ℕ, zero, suc, ◌+◌, ◌^◌, ◌≤◌, ◌<◌, ◌≡◌, refl, sym, ap, ◌∙◌, true, Option, some, List, [], ◌∷◌,
  arith, map, ◌==◌, length, set, get_elem?, ◌>>=?◌, inl, inr, Option-cases, Bool-cases, ltb, ltb→lt,
  ltb→ge, lt-get_elem?, ge→ltb, lt→ltb, get_elem?-set_self, get_elem?-set_ne, eqb→eq, eqb→ne,
}
use neo_lang.Prelude.Int.{fits, fits→Fits, to_bits, of_bits-to_bits, add_offset}
use neo_lang.OpCode.{OpCode}
use neo_lang.Instruction.{Instruction, instruction, encoded_len, bytecode_offset_of}
use neo_lang.Peephole.Relayout.{map_byte_offset_after_strict_remove}
use neo_lang.Peephole.Targets.{
  targets, relayout_one-targets, kind, long1, short1, offsets, read_four, signed32,
}
use neo_lang.Peephole.Passes.{
  long_pc_branch_to_short_opcode, shortened, try_shorten_long_pc_branch_at,
}
use neo_lang.Peephole.Offsets.{
  prefix_byte_offsets-at, relayout_pc_relatives-at, relayout_pc_relatives-offsets,
}
use neo_lang.Peephole.Jumps.{offset-suc, offset-zero, offset_mono, offset_step}

short_kind :
    (op short_op : OpCode)
    → long_pc_branch_to_short_opcode op ≡ some short_op
    → (kind op ≡ long1) × (kind short_op ≡ short1)
unfolding long_pc_branch_to_short_opcode kind
short_kind OpCode.jmp_l s h = let e : OpCode.jmp ≡ s = cc in rw (← e) (refl, refl)
short_kind OpCode.jmpif_l s h = let e : OpCode.jmpif ≡ s = cc in rw (← e) (refl, refl)
short_kind OpCode.jmpifnot_l s h = let e : OpCode.jmpifnot ≡ s = cc in rw (← e) (refl, refl)
short_kind OpCode.jmpeq_l s h = let e : OpCode.jmpeq ≡ s = cc in rw (← e) (refl, refl)
short_kind OpCode.jmpne_l s h = let e : OpCode.jmpne ≡ s = cc in rw (← e) (refl, refl)
short_kind OpCode.jmpgt_l s h = let e : OpCode.jmpgt ≡ s = cc in rw (← e) (refl, refl)
short_kind OpCode.jmpge_l s h = let e : OpCode.jmpge ≡ s = cc in rw (← e) (refl, refl)
short_kind OpCode.jmplt_l s h = let e : OpCode.jmplt ≡ s = cc in rw (← e) (refl, refl)
short_kind OpCode.jmple_l s h = let e : OpCode.jmple ≡ s = cc in rw (← e) (refl, refl)
short_kind OpCode.endtry_l s h = let e : OpCode.endtry ≡ s = cc in rw (← e) (refl, refl)
short_kind _ s h = absurd (cc)

-- What a successful attempt has found.
pub record Found (is : List Instruction) (index : ℕ) (is' : List Instruction) : Type 0 where
  pub old : Instruction
  pub short_op : OpCode
  pub at_index : get_elem? is index ≡ some old
  pub has_short : long_pc_branch_to_short_opcode old.opcode ≡ some short_op
  pub four : length old.operands ≡ 4
  pub near : fits (2 ^ 7) (signed32 old.operands) ≡ true
  pub result : shortened is index short_op (signed32 old.operands) ≡ some is'

pub try_shorten-Found :
    (is : List Instruction) (index : ℕ) (is' : List Instruction)
    → try_shorten_long_pc_branch_at is index ≡ some is'
    → Found is index is'
unfolding try_shorten_long_pc_branch_at
try_shorten-Found is index is' h = elim (Option-cases (get_elem? is index)) [
  | inl e ↦ let h' = rw e at h in absurd (cc)
  | inr (i, e) ↦ elim (Option-cases (long_pc_branch_to_short_opcode i.opcode)) [
    | inl e2 ↦ let h' = rw e2 at (rw e at h) in absurd (cc)
    | inr (s, e2) ↦ elim (Bool-cases (length i.operands == 4)) [
      | inr e3 ↦ let h' = rw e3 at (rw e2 at (rw e at h)) in absurd (cc)
      | inl e3 ↦
          let size = eqb→eq (length i.operands) 4 e3 in
          let read = read_four i.operands size in
          let h3 = rw read at (rw e3 at (rw e2 at (rw e at h))) in
          elim (Bool-cases (fits (2 ^ 7) (signed32 i.operands))) [
            | inr e4 ↦ let h' = rw e4 at h3 in absurd (cc)
            | inl e4 ↦ record {
              old = i;
              short_op = s;
              at_index = e;
              has_short = e2;
              four = size;
              near = e4;
              result = rw e4 at h3;
            }
          ]
    ]
  ]
]

set_offset_before :
    (is : List Instruction) (index k : ℕ) (new : Instruction)
    → k ≤ index
    → bytecode_offset_of (set is index new) k ≡ bytecode_offset_of is k
set_offset_before is index zero new h = offset-zero (set is index new) ∙ sym (offset-zero is)
set_offset_before [] index (suc k) new h = refl
set_offset_before (i ∷ is) zero (suc k) new h = absurd (omega arith)
set_offset_before (i ∷ is) (suc index) (suc k) new h = omega (
  arith,
  offset-suc i (set is index new) k,
  offset-suc i is k,
  set_offset_before is index k new (omega arith),
)

set_offset_after :
    (is : List Instruction) (index k : ℕ) (i new : Instruction)
    → index < k
    → get_elem? is index ≡ some i
    → bytecode_offset_of (set is index new) k + encoded_len i
      ≡ bytecode_offset_of is k + encoded_len new
set_offset_after is index zero i new h found = elim h [ ]
set_offset_after [] index (suc k) i new h found = absurd (cc)
set_offset_after (x ∷ is) zero (suc k) i new h found =
    let same : x ≡ i = cc in
    omega (arith, offset-suc new is k, offset-suc x is k, ap encoded_len same)
set_offset_after (x ∷ is) (suc index) (suc k) i new h found = omega (
  arith,
  offset-suc x (set is index new) k,
  offset-suc x is k,
  set_offset_after is index k i new (omega arith) found,
)

module _ (is : List Instruction) (index : ℕ) (is' : List Instruction) (f : Found is index is') where
  abbrev short : Instruction
  short = instruction f.short_op (to_bits (2 ^ 7) (signed32 f.old.operands) ∷ [])

  abbrev start : ℕ
  start = bytecode_offset_of is index

  -- How the pass maps a byte offset.
  abbrev landing : ℕ → Option ℕ
  landing p = map_byte_offset_after_strict_remove p (start + 2) 3

  final_offset : (k : ℕ) → bytecode_offset_of is' k ≡ bytecode_offset_of (set is index short) k
  unfolding shortened
  final_offset k = (relayout_pc_relatives-offsets landing _ _ (set is index short) is' k f.result).1

  old_len : encoded_len f.old ≡ 5
  unfolding encoded_len
  old_len = omega (arith, f.four)

  new_len : encoded_len short ≡ 2
  unfolding encoded_len
  new_len = refl

  landing_start :
      (k : ℕ) (b : Instruction)
      → get_elem? is k ≡ some b
      → landing (bytecode_offset_of is k) ≡ some (bytecode_offset_of is' k)
  unfolding map_byte_offset_after_strict_remove
  landing_start k b h = elim (Bool-cases (ltb index k)) [
    | inr before ↦
        let le = ltb→ge index k before in
        let low : bytecode_offset_of is k < start + 2 = omega (arith, offset_mono is k index le) in
        rw (lt→ltb _ _ low) (ap some (sym (final_offset k ∙ set_offset_before is index k short le)))
    | inl after ↦
        let lt = ltb→lt index k after in
        let past : start + 5 ≤ bytecode_offset_of is k = omega (
          arith,
          offset_step is index f.old f.at_index,
          old_len,
          offset_mono is (suc index) k lt,
        ) in
        let first = ge→ltb (bytecode_offset_of is k) (start + 2) (omega arith) in
        let second = ge→ltb (bytecode_offset_of is k) (start + 2 + 3) (omega arith) in
        rw (first, second)
          (ap some (
            omega (
              arith,
              final_offset k,
              set_offset_after is index k f.old short lt f.at_index,
              old_len,
              new_len,
            )))
  ]

  -- The short form has the target of the long one.
  short-targets : (pc : ℕ) → targets pc short ≡ targets pc f.old
  unfolding targets offsets
  short-targets pc =
      let (long, kind_short) = short_kind f.old.opcode f.short_op f.has_short in
      rw (long, kind_short)
        (rw f.four (
          ap (λ z. add_offset pc z ∷ [])
            (of_bits-to_bits (2 ^ 7) (signed32 f.old.operands) (fits→Fits (2 ^ 7) _ f.near))))

  before_relayout :
      (k : ℕ) (b : Instruction)
      → get_elem? is k ≡ some b
      → (t : Instruction) × (get_elem? (set is index short) k ≡ some t)
        × (targets (bytecode_offset_of is k) t ≡ targets (bytecode_offset_of is k) b)
  before_relayout k b h = elim (Bool-cases (index == k)) [
    | inl same ↦
        let e : index ≡ k = eqb→eq index k same in
        let is_old : f.old ≡ b = let at = f.at_index in let h' = rw (← e) at h in cc in
        (
          short,
          rw (← e) (get_elem?-set_self is index short (lt-get_elem? is index f.at_index)),
          short-targets (bytecode_offset_of is k) ∙ ap (targets (bytecode_offset_of is k)) is_old,
        )
    | inr other ↦ (b, get_elem?-set_ne is index k short (eqb→ne index k other) ∙ h, refl)
  ]

  -- Shortening a branch. The targets of the instruction at `k`, the shortened one included, are
  -- the old ones, mapped by `landing`, which maps the start of each instruction to its new start.
  shortened_targets :
      (k j : ℕ) (b d : Instruction)
      → get_elem? is k ≡ some b
      → get_elem? is j ≡ some d
      → (b' : Instruction) × (get_elem? is' k ≡ some b')
        × (targets (bytecode_offset_of is' k) b'
            ≡ map (λ t. t >>=? landing) (targets (bytecode_offset_of is k) b))
        × (landing (bytecode_offset_of is j) ≡ some (bytecode_offset_of is' j))
  unfolding shortened
  shortened_targets k j b d at_k at_j =
      let (t, here, same) = before_relayout k b at_k in
      let in_trial = lt-get_elem? (set is index short) k here in
      let (b', there, one) =
        relayout_pc_relatives-at landing _ _ (set is index short) is' k (bytecode_offset_of is k)
          (bytecode_offset_of (set is index short) k) t f.result
          (prefix_byte_offsets-at is k (lt-get_elem? is k at_k))
          (prefix_byte_offsets-at (set is index short) k in_trial) here in
      let (_, _, moved) = relayout_one-targets landing _ _ t b' one in
      (
        b',
        there,
        rw (final_offset k) (moved ∙ ap (map (λ t. t >>=? landing)) same),
        landing_start j d at_j,
      )

-- A successful attempt to shorten the branch at `index`: the targets of every instruction, the
-- shortened one included, are the old ones, mapped by the function that maps the start of each
-- instruction to its new start.
pub try_shorten-targets :
    (is is' : List Instruction) (index k j : ℕ) (b d : Instruction)
    → try_shorten_long_pc_branch_at is index ≡ some is'
    → get_elem? is k ≡ some b
    → get_elem? is j ≡ some d
    → (b' : Instruction) × (get_elem? is' k ≡ some b')
      × (targets (bytecode_offset_of is' k) b'
          ≡ map
              (λ t. t >>=? λ p.
                map_byte_offset_after_strict_remove p (bytecode_offset_of is index + 2) 3)
              (targets (bytecode_offset_of is k) b))
      × (map_byte_offset_after_strict_remove
            (bytecode_offset_of is j)
            (bytecode_offset_of is index + 2)
            3
          ≡ some (bytecode_offset_of is' j))
try_shorten-targets is is' index k j b d h at_k at_j =
    shortened_targets is index is' (try_shorten-Found is index is' h) k j b d at_k at_j
