-- ===== src/Peephole/Jumps.antt =====
-- Removing a jump to the next instruction keeps where branches land.
use neo_lang.Prelude.{
  ℕ, zero, suc, ◌+◌, ◌≤◌, ◌<◌, ◌≡◌, refl, sym, ap, ◌∙◌, some, List, [], ◌∷◌, arith, map, length,
  drain, get_elem?, ◌>>=?◌, inl, inr, Bool-cases, ltb, ltb→lt, ltb→ge, before_drain, drain-suc,
  drain-zero, get_elem?-drain, lt-get_elem?, ge→ltb, lt→ltb,
}
use neo_lang.Instruction.{Instruction, encoded_len, bytecode_len, bytecode_offset_of}
use neo_lang.Instruction.Offsets.{encoded_len-pos}
use neo_lang.Peephole.Relayout.{prefix_byte_offsets, map_byte_offset_after_delete}
use neo_lang.Peephole.Targets.{targets, relayout_one-targets}
use neo_lang.Peephole.Passes.{Code, delete_jump}
use neo_lang.Peephole.Offsets.{
  prefix_byte_offsets-at, relayout_pc_relatives-at, relayout_pc_relatives-offsets,
}

pub offset-suc :
    (i : Instruction) (is : List Instruction) (k : ℕ)
    → bytecode_offset_of (i ∷ is) (suc k) ≡ encoded_len i + bytecode_offset_of is k
unfolding bytecode_offset_of bytecode_len
offset-suc i is k = refl

pub offset-zero : (is : List Instruction) → bytecode_offset_of is 0 ≡ 0
unfolding bytecode_offset_of bytecode_len
offset-zero is = refl

-- The offsets of a list without the instruction at `index`: as before up to there, and less by its
-- length from there on.
drain_offset_before :
    (is : List Instruction) (index k : ℕ)
    → k ≤ index
    → index < length is
    → bytecode_offset_of (drain is index 1) k ≡ bytecode_offset_of is k
drain_offset_before is index zero h lt = offset-zero (drain is index 1) ∙ sym (offset-zero is)
drain_offset_before [] index (suc k) h lt = absurd (omega arith)
drain_offset_before (i ∷ is) zero (suc k) h lt = absurd (omega arith)
drain_offset_before (i ∷ is) (suc index) (suc k) h lt =
    ap (λ t. bytecode_offset_of t (suc k)) (drain-suc i is index 1)
    ∙ omega (
      arith,
      offset-suc i (drain is index 1) k,
      offset-suc i is k,
      drain_offset_before is index k (omega arith) (omega arith),
    )

drain_offset_after :
    (is : List Instruction) (index k : ℕ) (i : Instruction)
    → index ≤ k
    → get_elem? is index ≡ some i
    → bytecode_offset_of (drain is index 1) k + encoded_len i ≡ bytecode_offset_of is (suc k)
drain_offset_after [] index k i h found = absurd (cc)
drain_offset_after (x ∷ is) zero k i h found =
    let same : x ≡ i = cc in
    omega (
      arith,
      ap (λ t. bytecode_offset_of t k) (drain-zero (x ∷ is) 1),
      offset-suc x is k,
      ap encoded_len same,
    )
drain_offset_after (x ∷ is) (suc index) zero i h found = absurd (omega arith)
drain_offset_after (x ∷ is) (suc index) (suc k) i h found = omega (
  arith,
  ap (λ t. bytecode_offset_of t (suc k)) (drain-suc x is index 1),
  offset-suc x (drain is index 1) k,
  offset-suc x is (suc k),
  drain_offset_after is index k i (omega arith) found,
)

pub offset_mono :
    (is : List Instruction) (a b : ℕ) → a ≤ b → bytecode_offset_of is a ≤ bytecode_offset_of is b
unfolding bytecode_offset_of bytecode_len
offset_mono is zero b h = omega arith
offset_mono [] (suc a) b h = omega arith
offset_mono (i ∷ is) (suc a) zero h = absurd (omega arith)
offset_mono (i ∷ is) (suc a) (suc b) h = omega (arith, offset_mono is a b (omega arith))

-- An instruction before another one starts at a smaller offset.
pub offset_step :
    (is : List Instruction) (a : ℕ) (i : Instruction)
    → get_elem? is a ≡ some i
    → bytecode_offset_of is (suc a) ≡ bytecode_offset_of is a + encoded_len i
unfolding bytecode_offset_of bytecode_len
offset_step [] a i h = absurd (cc)
offset_step (x ∷ is) zero i h = let same : x ≡ i = cc in omega (arith, ap encoded_len same)
offset_step (x ∷ is) (suc a) i h = omega (arith, offset_step is a i h)

module _ (c : Code) (index : ℕ) (jump : Instruction) (trial : List Instruction)
    (found : get_elem? c.inst index ≡ some jump)
    (deleted : delete_jump c index jump ≡ some trial) where
  -- How the pass maps a byte offset.
  abbrev landing : ℕ → ℕ
  landing p = map_byte_offset_after_delete p (bytecode_offset_of c.inst index) (encoded_len jump)

  trial_offset : (k : ℕ) → bytecode_offset_of trial k ≡ bytecode_offset_of (drain c.inst index 1) k
  unfolding delete_jump
  trial_offset k =
      (relayout_pc_relatives-offsets (λ p. some (landing p)) _ _ (drain c.inst index 1) trial k
        deleted).1

  landing_other :
      (k : ℕ) (b : Instruction)
      → get_elem? c.inst (before_drain index 1 k) ≡ some b
      → landing (bytecode_offset_of c.inst (before_drain index 1 k)) ≡ bytecode_offset_of trial k
  unfolding map_byte_offset_after_delete
  landing_other k b h = elim (Bool-cases (ltb k index)) [
    | inl before ↦
        let lt = ltb→lt k index before in
        let h' = rw before at h in
        let less : bytecode_offset_of c.inst k < bytecode_offset_of c.inst index = omega (
          arith,
          offset_step c.inst k b h',
          offset_mono c.inst (suc k) index lt,
          encoded_len-pos b,
        ) in
        rw (before, lt→ltb _ _ less)
          (sym (
            trial_offset k
            ∙ drain_offset_before c.inst index k (omega arith) (lt-get_elem? c.inst index found)))
    | inr after ↦
        let ge = ltb→ge k index after in
        let next : k + 1 ≡ suc k = omega arith in
        let past : bytecode_offset_of c.inst index + encoded_len jump
            ≤ bytecode_offset_of c.inst (suc k) =
          omega (
            arith,
            offset_step c.inst index jump found,
            offset_mono c.inst (suc index) (suc k) (omega arith),
          ) in
        let first =
          ge→ltb (bytecode_offset_of c.inst (suc k)) (bytecode_offset_of c.inst index)
            (omega arith) in
        let second =
          ge→ltb (bytecode_offset_of c.inst (suc k))
            (bytecode_offset_of c.inst index + encoded_len jump) past in
        rw (after, next, first, second)
          (omega (arith, trial_offset k, drain_offset_after c.inst index k jump ge found))
  ]

  landing_jump : landing (bytecode_offset_of c.inst index) ≡ bytecode_offset_of trial index
  unfolding map_byte_offset_after_delete
  landing_jump =
      let here = bytecode_offset_of c.inst index in
      let first = ge→ltb here here (omega arith) in
      let second = lt→ltb here (here + encoded_len jump) (omega (arith, encoded_len-pos jump)) in
      rw (first, second)
        (sym (
          trial_offset index
          ∙ drain_offset_before c.inst index index (omega arith) (lt-get_elem? c.inst index found)))

  -- Removing a jump to the next instruction. The instruction `b` that comes to stand at `k` keeps
  -- its opcode, and its branch targets are the old ones, mapped by `landing`; `landing` maps the
  -- start of each remaining instruction to its new start, and the start of the removed jump to
  -- that of the instruction behind it.
  pub delete_jump-targets :
      (k j : ℕ) (b d : Instruction)
      → get_elem? c.inst (before_drain index 1 k) ≡ some b
      → get_elem? c.inst (before_drain index 1 j) ≡ some d
      → (b' : Instruction) × (get_elem? trial k ≡ some b')
        × (b'.opcode ≡ b.opcode)
        × (targets (bytecode_offset_of trial k) b'
            ≡ map
                (λ t. t >>=? λ p. some (landing p))
                (targets (bytecode_offset_of c.inst (before_drain index 1 k)) b))
        × (landing (bytecode_offset_of c.inst (before_drain index 1 j))
            ≡ bytecode_offset_of trial j)
        × (landing (bytecode_offset_of c.inst index) ≡ bytecode_offset_of trial index)
  unfolding delete_jump
  delete_jump-targets k j b d at_k at_j =
      let m = λ (p : ℕ). some (landing p) in
      let was = before_drain index 1 k in
      let rest_at : get_elem? (drain c.inst index 1) k ≡ some b =
        get_elem?-drain c.inst index 1 k ∙ at_k in
      let old_at : get_elem? (drain (prefix_byte_offsets c.inst) index 1) k
          ≡ some (bytecode_offset_of c.inst was) =
        get_elem?-drain (prefix_byte_offsets c.inst) index 1 k
        ∙ prefix_byte_offsets-at c.inst was (lt-get_elem? c.inst was at_k) in
      let new_at =
        prefix_byte_offsets-at (drain c.inst index 1) k
          (lt-get_elem? (drain c.inst index 1) k rest_at) in
      let (b', here, one) =
        relayout_pc_relatives-at m _ _ (drain c.inst index 1) trial k
          (bytecode_offset_of c.inst was) (bytecode_offset_of (drain c.inst index 1) k) b deleted
          old_at new_at rest_at in
      let (op, _, moved) =
        relayout_one-targets m (bytecode_offset_of c.inst was)
          (bytecode_offset_of (drain c.inst index 1) k) b b' one in
      (b', here, op, rw (trial_offset k) moved, landing_other j d at_j, landing_jump)
