-- ===== src/Peephole/Calls.antt =====
-- The calls that the patches are of, through the edits of the passes (codegen/opt.rs).
use neo_lang.Prelude.{
  subst, ℕ, ◌+◌, ◌-◌, ◌≤◌, ◌<◌, ◌≡◌, ◌⊎◌, refl, ap, ◌∙◌, false, Option, some, List, [], ◌∷◌, arith,
  map, length, drain, drop, get_elem?, inl, inr, All, Bool-cases, Option-cases, leb, if◌then◌else◌,
  before_drain, get_elem?-drain, length-drain,
}
use neo_lang.OpCode.{OpCode}
use neo_lang.Instruction.{Instruction}
use neo_lang.Peephole.Slots.{
  Patch, call_patch_touches_range, shift_index, shift_call_patches_after_remove,
}
use neo_lang.Peephole.Passes.{
  Code, relayout_pc_relatives, remove_at, dup_drop_pair, dup_drop_at, not_reloaded,
  stloc_ldloc_slot, stloc_ldloc_at,
}
use neo_lang.Peephole.Offsets.{
  relayout_pc_relatives-keeps, relayout_pc_relatives-offsets, relayout_pc_relatives-opcodes,
}
use neo_lang.Peephole.Counts.{
  NoCalls, calls, calls_before, calls_before-drain, calls_before-opcodes, calls-drain,
  calls-opcodes,
}
use neo_lang.Peephole.Removed.{dup_drop-NoCalls, stloc_ldloc-NoCalls}
use mathlib.Core.Path.{ap₂}
use neo_lang.Peephole.Loop.{Shrinks}

-- The patch names a `CALL_L` with its four operand bytes.
pub record PointsAtCall (is : List Instruction) (p : Patch) : Type 0 where
  pub site : Instruction
  pub at_index : get_elem? is p.0 ≡ some site
  pub is_call_l : site.opcode ≡ OpCode.call_l
  pub four : length site.operands ≡ 4

abbrev pub CallsPatched : Code → Type 0
CallsPatched c = All (PointsAtCall c.inst) c.patches

-- The call of each patch: the number of `CALL_L` instructions in front of it, and its name.
abbrev pub called : List Instruction → List Patch → List (ℕ × List ℕ)
called is = map λ p. (calls_before is p.0, p.1)

-- Patches that a test for the range does not find lie before it or behind it.
pub untouched :
    (ps : List Patch) (start len : ℕ)
    → call_patch_touches_range ps start len ≡ false
    → All (λ p. (p.0 < start) ⊎ (start + len ≤ p.0)) ps
unfolding call_patch_touches_range
untouched [] start len h = tt
untouched ((index, name) ∷ ps) start len h = (ground arith, untouched ps start len (ground arith))

-- A patch at an untouched index, seen from the code after an edit.
module _ (is is' : List Instruction) (move : ℕ → ℕ)
    (kept : (k : ℕ) (i : Instruction)
      → i.opcode ≡ OpCode.call_l
      → get_elem? is k ≡ some i
      → (i' : Instruction) × (get_elem? is' k ≡ some i')
        × (i'.opcode ≡ i.opcode)
        × (length i'.operands ≡ length i.operands)) where
  pub carried : (ps : List Patch) → All (PointsAtCall is) ps → All (PointsAtCall is') ps
  carried [] h = tt
  carried (p ∷ ps) h =
      let s = h.0 in
      let (i', here, op, len) = kept p.0 s.site s.is_call_l s.at_index in
      (
        record { site = i'; at_index = here; is_call_l = op ∙ s.is_call_l; four = len ∙ s.four },
        carried ps h.1,
      )

shifted :
    (is : List Instruction) (index n : ℕ) (ps : List Patch)
    → All (λ p. (p.0 < index) ⊎ (index + n ≤ p.0)) ps
    → All (PointsAtCall is) ps
    → All (PointsAtCall (drain is index n)) (shift_call_patches_after_remove ps index n)
unfolding shift_call_patches_after_remove shift_index
shifted is index n [] u h = tt
shifted is index n ((k, name) ∷ ps) u h =
    let s = h.0 in
    let moves : before_drain index n (if leb (index + n) k then k - n else k) ≡ k =
      ground (arith, u.0) in
    (
      record {
        site = s.site;
        at_index = get_elem?-drain is index n _ ∙ ap (get_elem? is) moves ∙ s.at_index;
        is_call_l = s.is_call_l;
        four = s.four;
      },
      shifted is index n ps u.1 h.1,
    )

called-shift :
    (is : List Instruction) (index n : ℕ) (ps : List Patch)
    → NoCalls is index n
    → All (λ p. (p.0 < index) ⊎ (index + n ≤ p.0)) ps
    → called (drain is index n) (shift_call_patches_after_remove ps index n) ≡ called is ps
unfolding shift_call_patches_after_remove shift_index
called-shift is index n [] free u = refl
called-shift is index n ((k, name) ∷ ps) free u =
    let moved = if leb (index + n) k then k - n else k in
    let moves : before_drain index n moved ≡ k = ground (arith, u.0) in
    let same : calls_before (drain is index n) moved ≡ calls_before is k =
      calls_before-drain is index n moved free ∙ ap (calls_before is) moves in
    ap₂ (λ (m : ℕ) (l : List (ℕ × List ℕ)). (m, name) ∷ l) same
      (called-shift is index n ps free u.1)

-- An edit that keeps the counts keeps the calls of patches that stay where they are.
pub called-same :
    (is is' : List Instruction) (ps : List Patch)
    → ((k : ℕ) → calls_before is' k ≡ calls_before is k)
    → called is' ps ≡ called is ps
called-same is is' [] h = refl
called-same is is' ((k, name) ∷ ps) h =
    ap₂ (λ (m : ℕ) (l : List (ℕ × List ℕ)). (m, name) ∷ l) (h k) (called-same is is' ps h)

-- The patches point at calls, which are the ones listed, of as many calls as there were.
abbrev pub Kept : List (ℕ × List ℕ) → ℕ → Code → Type 0
Kept marks total c = CallsPatched c × (called c.inst c.patches ≡ marks) × (calls c.inst ≡ total)

module _ (marks : List (ℕ × List ℕ)) (total : ℕ) where
  pub remove_at-Kept :
      (c : Code) (index n : ℕ)
      → Kept marks total c
      → index + n ≤ length c.inst
      → NoCalls c.inst index n
      → call_patch_touches_range c.patches index n ≡ false
      → Kept marks total (remove_at c index n)
  unfolding remove_at
  remove_at-Kept c index n k room free h = (
    shifted c.inst index n c.patches (untouched c.patches index n h) k.0,
    called-shift c.inst index n c.patches free (untouched c.patches index n h) ∙ k.1,
    calls-drain c.inst index n room free ∙ k.2,
  )

  pub remove_at_shortens :
      (c : Code) (index n : ℕ)
      → 0 < n
      → index + n ≤ length c.inst
      → length (remove_at c index n).inst < length c.inst
  unfolding remove_at
  remove_at_shortens c index n pos room = omega (arith, length-drain {0} c.inst index n room)

  dup_drop_found :
      (c : Code) (index : ℕ) (c' : Code)
      → dup_drop_at c index ≡ some c'
      → (call_patch_touches_range c.patches index 2 ≡ false)
        × NoCalls c.inst index 2
        × (remove_at c index 2 ≡ c')
  unfolding dup_drop_at
  dup_drop_found c index c' h =
      elim (Bool-cases (dup_drop_pair (get_elem? c.inst index) (get_elem? c.inst (index + 1)))) [
        | inr e ↦ let h' = rw e at h in absurd (cc)
        | inl e ↦ elim (Bool-cases (call_patch_touches_range c.patches index 2)) [
          | inl e2 ↦ let h' = rw e2 at (rw e at h) in absurd (cc)
          | inr e2 ↦ let h' = rw e2 at (rw e at h) in (e2, dup_drop-NoCalls c.inst index e, cc)
        ]
      ]

  pub dup_drop-Shrinks : Shrinks (Kept marks total) 2 dup_drop_at
  dup_drop-Shrinks = record {
    keeps = λ c index c' k room h.
        let (apart, free, same) = dup_drop_found c index c' h in
        subst (Kept marks total) same (remove_at-Kept c index 2 k room free apart);
    shortens = λ c index c' room h.
        let (apart, free, same) = dup_drop_found c index c' h in
        subst (λ d. length d.inst < length c.inst) same
          (remove_at_shortens c index 2 (omega arith) room);
  }

  stloc_ldloc_found :
      (c : Code) (index : ℕ) (c' : Code)
      → stloc_ldloc_at c index ≡ some c'
      → (call_patch_touches_range c.patches index 2 ≡ false)
        × NoCalls c.inst index 2
        × (remove_at c index 2 ≡ c')
  unfolding stloc_ldloc_at
  stloc_ldloc_found c index c' h =
      elim (Option-cases
        (stloc_ldloc_slot (get_elem? c.inst index) (get_elem? c.inst (index + 1)))) [
          | inl e ↦ let h' = rw e at h in absurd (cc)
          | inr (n, e) ↦ elim (Bool-cases (call_patch_touches_range c.patches index 2)) [
            | inl e2 ↦ let h' = rw e2 at (rw e at h) in absurd (cc)
            | inr e2 ↦ elim (Bool-cases (not_reloaded n (drop (index + 2) c.inst))) [
              | inr e3 ↦ let h' = rw e3 at (rw e2 at (rw e at h)) in absurd (cc)
              | inl e3 ↦
                  let h' = rw e3 at (rw e2 at (rw e at h)) in
                  (e2, stloc_ldloc-NoCalls c.inst index n e, cc)
            ]
          ]
        ]

  pub stloc_ldloc-Shrinks : Shrinks (Kept marks total) 2 stloc_ldloc_at
  stloc_ldloc-Shrinks = record {
    keeps = λ c index c' k room h.
        let (apart, free, same) = stloc_ldloc_found c index c' h in
        subst (Kept marks total) same (remove_at-Kept c index 2 k room free apart);
    shortens = λ c index c' room h.
        let (apart, free, same) = stloc_ldloc_found c index c' h in
        subst (λ d. length d.inst < length c.inst) same
          (remove_at_shortens c index 2 (omega arith) room);
  }

  -- Re-encoding the rest after an edit keeps the patches.
  pub relaid-Kept :
      (m : ℕ → Option ℕ) (olds news : List ℕ) (is is' : List Instruction) (ps : List Patch)
      → relayout_pc_relatives m olds news is ≡ some is'
      → Kept marks total (record { inst = is; patches = ps })
      → Kept marks total (record { inst = is'; patches = ps })
  relaid-Kept m olds news is is' ps h k =
      let ops = relayout_pc_relatives-opcodes m olds news is is' h in
      let len = (relayout_pc_relatives-offsets m olds news is is' 0 h).0 in
      (
        carried is is' (λ j. j)
            (λ j i op at. relayout_pc_relatives-keeps m olds news is is' j i h at) ps k.0,
        called-same is is' ps (λ j. calls_before-opcodes is is' j ops) ∙ k.1,
        calls-opcodes is is' len ops ∙ k.2,
      )
