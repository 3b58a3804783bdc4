-- ===== src/Peephole/Loads.antt =====
-- Merging two loads. `loaded` reads an instruction as the NeoVM does, by the documentation of the
-- opcodes: the locals and the arguments of a function are two spaces of slots.
use neo_lang.Prelude.{
  eqb_refl, Option-cases, inl, inr, ℕ, ◌≡◌, ◌≢◌, refl, sym, ap, ◌∙◌, true, Option, none, some, List,
  [], ◌∷◌, eqb→eq, ◌>>=?◌,
}
use mathlib.Core.Option.{some-injective}
use neo_lang.OpCode.{OpCode}
use neo_lang.Instruction.{Instruction, instruction}
use neo_lang.Peephole.Slots.{load_slot, call_patch_touches_range}
use neo_lang.Peephole.Passes.{
  same_slot, merge_pair, merge_at, merge_from, merge_adjacent_duplicate_loads,
}

pub data Space : Type 0 where
  locals args : Space

loaded_of : OpCode → List ℕ → Option (Space × ℕ)
loaded_of OpCode.ldloc0 _ = some (locals, 0)
loaded_of OpCode.ldloc1 _ = some (locals, 1)
loaded_of OpCode.ldloc2 _ = some (locals, 2)
loaded_of OpCode.ldloc3 _ = some (locals, 3)
loaded_of OpCode.ldloc4 _ = some (locals, 4)
loaded_of OpCode.ldloc5 _ = some (locals, 5)
loaded_of OpCode.ldloc6 _ = some (locals, 6)
loaded_of OpCode.ldloc (n ∷ []) = some (locals, n)
loaded_of OpCode.ldarg0 _ = some (args, 0)
loaded_of OpCode.ldarg1 _ = some (args, 1)
loaded_of OpCode.ldarg2 _ = some (args, 2)
loaded_of OpCode.ldarg3 _ = some (args, 3)
loaded_of OpCode.ldarg4 _ = some (args, 4)
loaded_of OpCode.ldarg5 _ = some (args, 5)
loaded_of OpCode.ldarg6 _ = some (args, 6)
loaded_of OpCode.ldarg (n ∷ []) = some (args, n)
loaded_of _ _ = none

-- The slot that an instruction loads.
unfoldable pub loaded : Instruction → Option (Space × ℕ)
unfolding loaded_of
loaded i = loaded_of i.opcode i.operands

-- What a function sees of its frame: the stack, its top in front, and the slots.
pub record Frame (V : Type 0) : Type 0 where
  pub stack : List V
  pub slot : Space → ℕ → V

unfoldable pub run_load : {V : Type 0} → Frame V → Option (Space × ℕ) → Option (Frame V)
run_load f none = none
run_load f (some (space, n)) = some (record f { stack = f.slot space n ∷ f.stack })

unfoldable pub run_dup : {V : Type 0} → Frame V → List V → Option (Frame V)
run_dup f [] = none
run_dup f (v ∷ s) = some (record f { stack = v ∷ v ∷ s })

-- The space that an opcode loads from; the locals for one that loads nothing.
unfoldable pub space : OpCode → Space
space OpCode.ldarg0 = args
space OpCode.ldarg1 = args
space OpCode.ldarg2 = args
space OpCode.ldarg3 = args
space OpCode.ldarg4 = args
space OpCode.ldarg5 = args
space OpCode.ldarg6 = args
space OpCode.ldarg = args
space _ = locals

loaded-load_slot :
    (op : OpCode) (bytes : List ℕ)
    → loaded_of op bytes ≡ load_slot op bytes >>=? λ n. some (space op, n)
unfolding loaded_of load_slot space
loaded-load_slot OpCode.ldloc [] = refl
loaded-load_slot OpCode.ldloc (n ∷ []) = refl
loaded-load_slot OpCode.ldloc (n ∷ m ∷ bytes) = refl
loaded-load_slot OpCode.ldarg [] = refl
loaded-load_slot OpCode.ldarg (n ∷ []) = refl
loaded-load_slot OpCode.ldarg (n ∷ m ∷ bytes) = refl
loaded-load_slot OpCode.pushint8 bytes = refl
loaded-load_slot _ bytes = refl

same_slot-eq : (a b : Option ℕ) → same_slot a b ≡ true → (n : ℕ) × (a ≡ some n) × (b ≡ some n)
unfolding same_slot
same_slot-eq none b h = absurd (cc)
same_slot-eq (some n) none h = absurd (cc)
same_slot-eq (some n) (some m) h = (n, refl, ap some (sym (eqb→eq n m h)))

module _ {V : Type 0} (f : Frame V) (first second : Instruction)
    (tested : same_slot
        (load_slot first.opcode first.operands)
        (load_slot second.opcode second.operands)
      ≡ true) where
  loads :
      (n : ℕ) × (loaded first ≡ some (space first.opcode, n))
      × (loaded second ≡ some (space second.opcode, n))
  unfolding loaded
  loads =
      let (n, a, b) = same_slot-eq _ _ tested in
      (
        n,
        loaded-load_slot first.opcode first.operands ∙ rw a refl,
        loaded-load_slot second.opcode second.operands ∙ rw b refl,
      )

  -- Two loads that pass the test of the merge, from one space: duplicating the first one's value
  -- gives the same frame as the second load.
  pub merge_loads_same :
      space first.opcode ≡ space second.opcode
      → (run_load f (loaded first) >>=? λ g. run_load g (loaded second))
        ≡ (run_load f (loaded first) >>=? λ g. run_dup g g.stack)
  unfolding run_load run_dup
  merge_loads_same same = let (n, a, b) = loads in rw (a, b) (rw same refl)

unfoldable pub run_other : {V : Type 0} → Frame V → OpCode → Option (Frame V)
unfolding run_dup
run_other f OpCode.dup = run_dup f f.stack
run_other f _ = none

-- A load, or a `DUP`; `none` for another instruction.
unfoldable pub run_one :
    {V : Type 0} → Frame V → Instruction → Option (Space × ℕ) → Option (Frame V)
unfolding run_load run_other
run_one f i (some slot) = run_load f (some slot)
run_one f i none = run_other f i.opcode

-- The frame behind a list of loads and `DUP`s.
unfoldable pub run : {V : Type 0} → Frame V → List Instruction → Option (Frame V)
unfolding run_one loaded
run f [] = some f
run f (i ∷ is) = run_one f i (loaded i) >>=? λ g. run g is

-- An instruction that loads a slot of either space has that slot for the test.
load_slot-loaded :
    (i : Instruction) (a : Space) (n : ℕ)
    → loaded i ≡ some (a, n)
    → load_slot i.opcode i.operands ≡ some n
unfolding loaded
load_slot-loaded i a n h =
    let same = loaded-load_slot i.opcode i.operands in
    elim (Option-cases (load_slot i.opcode i.operands)) [
      | inl e ↦ let same' = rw e at same in absurd (cc)
      | inr (m, e) ↦
          let same' = rw e at same in
          let pair = some-injective (space i.opcode, m) (a, n) (sym same' ∙ h) in
          e ∙ ap some (ap (λ (q : Space × ℕ). q.1) pair)
    ]

merge_adjacent_duplicate_loads-two :
    (first second : Instruction) (n : ℕ)
    → load_slot first.opcode first.operands ≡ some n
    → load_slot second.opcode second.operands ≡ some n
    → merge_adjacent_duplicate_loads (record { inst = first ∷ second ∷ []; patches = [] })
      ≡ (record { inst = first ∷ instruction OpCode.dup [] ∷ []; patches = [] }, true)
unfolding merge_adjacent_duplicate_loads merge_from merge_at merge_pair same_slot
    call_patch_touches_range
merge_adjacent_duplicate_loads-two first second n a b = rw (a, b) (rw (eqb_refl n) refl)

-- In a function of two loads, of a local and an argument with the same number but different values,
-- in either order, and without patches, the pass that merges loads changes what the function does:
-- its code leaves the second value on top of the first one, and the pass's code the first one twice.
pub merge_adjacent_duplicate_loads-mixed :
    {V : Type 0} (f : Frame V) (first second : Instruction) (a b : Space) (n : ℕ)
    → loaded first ≡ some (a, n)
    → loaded second ≡ some (b, n)
    → f.slot a n ≢ f.slot b n
    → (g h : Frame V) × (run f (first ∷ second ∷ []) ≡ some g)
      × (run f
            (merge_adjacent_duplicate_loads
              (record { inst = first ∷ second ∷ []; patches = [] })).0.inst
          ≡ some h)
      × (g.stack ≡ f.slot b n ∷ f.slot a n ∷ f.stack)
      × (h.stack ≡ f.slot a n ∷ f.slot a n ∷ f.stack)
      × (g ≢ h)
unfolding run loaded
merge_adjacent_duplicate_loads-mixed f first second a b n at_first at_second differ =
    let merged =
      merge_adjacent_duplicate_loads-two first second n (load_slot-loaded first a n at_first)
        (load_slot-loaded second b n at_second) in
    (
      record f { stack = f.slot b n ∷ f.slot a n ∷ f.stack },
      record f { stack = f.slot a n ∷ f.slot a n ∷ f.stack },
      rw at_first (rw at_second refl),
      rw merged (rw at_first refl),
      refl,
      refl,
      λ same. let stacks = ap (λ t. t.stack) same in differ (cc),
    )
