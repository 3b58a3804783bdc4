-- ===== src/Peephole/Ends.antt =====
-- The rounds of the optimizer: they end, and the patches stay at their calls.
use neo_lang.Prelude.{
  subst, ℕ, zero, suc, ◌+◌, ◌-◌, ◌<◌, ◌≡◌, ◌≢◌, refl, sym, ap, ◌∙◌, Bool, true, false, ◌||◌, Option,
  none, some, List, [], arith, length, set, drain, get_elem?, inl, inr, Bool-cases, Option-cases,
  ltb, length-drain, get_elem?-set_ne,
}
use neo_lang.OpCode.{OpCode}
use neo_lang.Instruction.{Instruction, instruction}
use neo_lang.Peephole.Slots.{Patch, call_patch_touches_range, load_slot}
use neo_lang.Peephole.Passes.{
  Code, same_slot, merge_at, merge_pair, merge_from, merge_adjacent_duplicate_loads, remove_at,
  dup_drop_at, peel_redundant_dup_drop, stloc_ldloc_at, peel_redundant_stloc_ldloc_pair,
  uncond_jmp_offset, falls_through, delete_jump, jmp_to_next, jmp_to_next_at,
  peel_redundant_uncond_jmp_to_next, shortened, try_shorten_long_pc_branch_at, shorten_from,
  shorten_long_pc_relative_branches, optimize_round, optimize_rounds, optimize,
}
use neo_lang.Peephole.Offsets.{relayout_pc_relatives-offsets}
use neo_lang.Peephole.Counts.{NoCalls, calls, calls_before-set, calls-set}
use neo_lang.Peephole.Removed.{same_slot-none, falls_through-NoCalls, call_l_long, call_l_short}
use neo_lang.Peephole.Loop.{Shrinks, run_pass_ends}
use neo_lang.Peephole.Shorten.{try_shorten-Found}
use neo_lang.Peephole.Calls.{
  CallsPatched, called, called-same, Kept, carried, remove_at-Kept, dup_drop-Shrinks,
  stloc_ldloc-Shrinks, relaid-Kept,
}

module _ (marks : List (ℕ × List ℕ)) (total : ℕ) where
  jmp_to_next_found :
      (c : Code) (index : ℕ) (c' : Code)
      → jmp_to_next_at c index ≡ some c'
      → (i : Instruction) × (trial : List Instruction) × (call_patch_touches_range c.patches index 1
          ≡ false)
        × NoCalls c.inst index 1
        × (delete_jump c index i ≡ some trial)
        × (record { inst = trial; patches = (remove_at c index 1).patches } ≡ c')
  unfolding jmp_to_next_at jmp_to_next remove_at
  jmp_to_next_found c index c' h = elim (Option-cases (get_elem? c.inst index)) [
    | inl e ↦ let h' = rw e at h in absurd (cc)
    | inr (i, e) ↦ elim (Bool-cases (call_patch_touches_range c.patches index 1)) [
      | inl e2 ↦ elim (Bool-cases (falls_through i (uncond_jmp_offset i))) [
        | inr e3 ↦ let h' = rw e3 at (rw e at h) in absurd (cc)
        | inl e3 ↦ elim (Bool-cases (ltb (index + 1) (length c.inst))) [
          | inr e4 ↦ let h' = rw e4 at (rw e3 at (rw e at h)) in absurd (cc)
          | inl e4 ↦ let h' = rw e2 at (rw e4 at (rw e3 at (rw e at h))) in absurd (cc)
        ]
      ]
      | inr e2 ↦ elim (Bool-cases (falls_through i (uncond_jmp_offset i))) [
        | inr e3 ↦ let h' = rw e3 at (rw e at h) in absurd (cc)
        | inl e3 ↦ elim (Bool-cases (ltb (index + 1) (length c.inst))) [
          | inr e4 ↦ let h' = rw e4 at (rw e3 at (rw e at h)) in absurd (cc)
          | inl e4 ↦ elim (Option-cases (delete_jump c index i)) [
            | inl e5 ↦ let h' = rw e5 at (rw e2 at (rw e4 at (rw e3 at (rw e at h)))) in absurd (cc)
            | inr (t, e5) ↦
                let h' = rw e5 at (rw e2 at (rw e4 at (rw e3 at (rw e at h)))) in
                (i, t, e2, falls_through-NoCalls c.inst index i e e3, e5, cc)
          ]
        ]
      ]
    ]
  ]

  jmp_to_next-Shrinks : Shrinks (Kept marks total) 1 jmp_to_next_at
  unfolding delete_jump remove_at
  jmp_to_next-Shrinks = record {
    keeps = λ c index c' k room h.
        let (i, t, apart, free, deleted, same) = jmp_to_next_found c index c' h in
        subst (Kept marks total) same (
          relaid-Kept marks total _ _ _ (drain c.inst index 1) t _ deleted
            (remove_at-Kept marks total c index 1 k room free apart));
    shortens = λ c index c' room h.
        let (i, t, apart, free, deleted, same) = jmp_to_next_found c index c' h in
        subst (λ d. length d.inst < length c.inst) same
          (omega (
            arith,
            (relayout_pc_relatives-offsets _ _ _ (drain c.inst index 1) t 0 deleted).0,
            length-drain {0} c.inst index 1 room,
          ));
  }

  -- Replacing an instruction that is no `CALL_L` by another such keeps the patches.
  set-Kept :
      (is : List Instruction) (ps : List Patch) (index : ℕ) (old new : Instruction)
      → get_elem? is index ≡ some old
      → old.opcode ≢ OpCode.call_l
      → new.opcode ≢ OpCode.call_l
      → Kept marks total (record { inst = is; patches = ps })
      → Kept marks total (record { inst = set is index new; patches = ps })
  set-Kept is ps index old new at other new_other k = (
    carried is (set is index new) (λ j. j)
        (λ j i op here. (
          i,
          get_elem?-set_ne is index j new (λ same. other (
                let here' : get_elem? is index ≡ some i = ap (get_elem? is) same ∙ here in
                let both : old ≡ i = cc in ap (λ t. t.opcode) both ∙ op))
              ∙ here,
          refl,
          refl,
        ))
        ps k.0,
    called-same is (set is index new) ps
          (λ j. calls_before-set is index j old new at other new_other)
        ∙ k.1,
    calls-set is index old new at other new_other ∙ k.2,
  )

  merge_pair-other :
      (c : Code) (index : ℕ) (first : Option Instruction) (second : Instruction)
      → merge_pair c index first (some second) ≡ true
      → second.opcode ≢ OpCode.call_l
  unfolding merge_pair load_slot
  merge_pair-other c index none second h op = absurd (cc)
  merge_pair-other c index (some first) second h op =
      let e : load_slot second.opcode second.operands ≡ none =
        ap (λ t. load_slot t second.operands) op in
      let e2 : same_slot (load_slot first.opcode first.operands) none ≡ false =
        same_slot-none (load_slot first.opcode first.operands) in
      let h' = rw e2 at (rw e at h) in absurd (cc)

  merge_pair_end :
      (c : Code) (index : ℕ) (first : Option Instruction) → merge_pair c index first none ≢ true
  unfolding merge_pair
  merge_pair_end c index none h = absurd (cc)
  merge_pair_end c index (some first) h = absurd (cc)

  merge_at-Kept :
      (c : Code) (index : ℕ) → Kept marks total c → Kept marks total (merge_at c index).0
  unfolding merge_at
  merge_at-Kept c index k =
      elim (Bool-cases
        (merge_pair c index (get_elem? c.inst index) (get_elem? c.inst (index + 1)))) [
          | inr e ↦ rw e k
          | inl e ↦ elim (Option-cases (get_elem? c.inst (index + 1))) [
            | inl e2 ↦ absurd (
                merge_pair_end c index (get_elem? c.inst index)
                  (ap (merge_pair c index _) (sym e2) ∙ e))
            | inr (second, e2) ↦
                let h' = rw e2 at e in
                rw e (
                  set-Kept c.inst c.patches (index + 1) second (instruction OpCode.dup []) e2
                    (merge_pair-other c index (get_elem? c.inst index) second h')
                    (λ call. absurd (cc)) k)
          ]
        ]

  merge_from-Kept :
      (count : ℕ) (c : Code) (index : ℕ) (changed : Bool)
      → Kept marks total c
      → Kept marks total (merge_from count c index changed).0
  unfolding merge_from
  merge_from-Kept zero c index changed k = k
  merge_from-Kept (suc count) c index changed k =
      merge_from-Kept count (merge_at c index).0 (index + 1) (changed || (merge_at c index).1)
        (merge_at-Kept c index k)

  try_shorten-Kept :
      (is is' : List Instruction) (ps : List Patch) (index : ℕ)
      → try_shorten_long_pc_branch_at is index ≡ some is'
      → Kept marks total (record { inst = is; patches = ps })
      → Kept marks total (record { inst = is'; patches = ps })
  unfolding shortened
  try_shorten-Kept is is' ps index h k =
      let f = try_shorten-Found is index is' h in
      relaid-Kept marks total _ _ _ _ is' ps f.result (
        set-Kept is ps index f.old _ f.at_index (call_l_long f.old.opcode f.short_op f.has_short)
          (call_l_short f.old.opcode f.short_op f.has_short) k)

  shorten_from-Kept :
      (count index : ℕ) (is : List Instruction) (ps : List Patch) (changed : Bool)
      → Kept marks total (record { inst = is; patches = ps })
      → Kept marks total (record { inst = (shorten_from count index is changed).0; patches = ps })
  unfolding shorten_from
  shorten_from-Kept zero index is ps changed k = k
  shorten_from-Kept (suc count) index is ps changed k =
      elim (Option-cases (try_shorten_long_pc_branch_at is index)) [
        | inl e ↦ rw (e, shorten_from) (shorten_from-Kept count (index + 1) is ps changed k)
        | inr (is', e) ↦
            rw (e, shorten_from)
              (shorten_from-Kept count (index + 1) is' ps true
                (try_shorten-Kept is is' ps index e k))
      ]

  -- Every round ends: its passes do.
  optimize_round_ends :
      (c : Code)
      → Kept marks total c
      → (r : Code × Bool) × (optimize_round c ≡ some r) × Kept marks total r.0
  unfolding optimize_round peel_redundant_dup_drop peel_redundant_stloc_ldloc_pair
      peel_redundant_uncond_jmp_to_next merge_adjacent_duplicate_loads
      shorten_long_pc_relative_branches
  optimize_round_ends c k =
      let k0 = merge_from-Kept (length c.inst - 1) c 0 false k in
      let (r1, e1, k1) =
        run_pass_ends (Kept marks total) 2 dup_drop_at (dup_drop-Shrinks marks total) _
          (omega arith) k0 in
      let (r2, e2, k2) =
        run_pass_ends (Kept marks total) 2 stloc_ldloc_at (stloc_ldloc-Shrinks marks total) r1.0
          (omega arith) k1 in
      let (r3, e3, k3) =
        run_pass_ends (Kept marks total) 1 jmp_to_next_at jmp_to_next-Shrinks r2.0 (omega arith)
          k2 in
      let k4 = shorten_from-Kept (length r3.0.inst) 0 r3.0.inst r3.0.patches false k3 in
      let m = merge_from (length c.inst - 1) c 0 false in
      let sh = shorten_from (length r3.0.inst) 0 r3.0.inst false in
      (
        (record { inst = sh.0; patches = r3.0.patches }, m.1 || r1.1 || r2.1 || r3.1 || sh.1),
        rw (e1, e2, e3) refl,
        k4,
      )

  abbrev Ended : ℕ → Code → Type 0
  Ended rounds c = (c' : Code) × (optimize_rounds rounds c ≡ some c') × Kept marks total c'

  after_round :
      (rounds : ℕ) (c c' : Code) (changed : Bool)
      → optimize_round c ≡ some (c', changed)
      → Kept marks total c'
      → Ended rounds c'
      → Ended (suc rounds) c
  unfolding optimize_rounds
  after_round rounds c c' true e k (r, more, k2) = (r, rw (e, optimize_rounds) more, k2)
  after_round rounds c c' false e k _ = (c', rw (e, optimize_rounds) refl, k)

  optimize_rounds_end : (rounds : ℕ) (c : Code) → Kept marks total c → Ended rounds c
  unfolding optimize_rounds
  optimize_rounds_end zero c k = (c, refl, k)
  optimize_rounds_end (suc rounds) c k =
      let (r, e, k') = optimize_round_ends c k in
      after_round rounds c r.0 r.1 e k' (optimize_rounds_end rounds r.0 k')

-- On every function whose patches point at `CALL_L` instructions with four operand bytes, the
-- optimizer ends; in its result the patches point at such instructions again, in the same order and
-- with the same names, each at the one with as many `CALL_L` instructions in front of it as before;
-- and there are as many `CALL_L` instructions as before.
pub optimize_ends :
    (c : Code)
    → CallsPatched c
    → (c' : Code) × (optimize c ≡ some c')
      × CallsPatched c'
      × (called c'.inst c'.patches ≡ called c.inst c.patches)
      × (calls c'.inst ≡ calls c.inst)
unfolding optimize
optimize_ends c h =
    let (r, e, k) =
      optimize_rounds_end (called c.inst c.patches) (calls c.inst) 64 c (h, refl, refl) in
    (r, e, k.0, k.1, k.2)
