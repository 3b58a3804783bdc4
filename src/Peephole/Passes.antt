-- ===== src/Peephole/Passes.antt =====
-- The passes and the rounds of the optimizer.
use neo_lang.Prelude.{
  ℕ, zero, suc, ◌+◌, ◌-◌, ◌^◌, Bool, true, false, not, ◌&&◌, ◌||◌, Option, none, some, List, [],
  ◌∷◌, ◌==◌, leb, ltb, if◌then◌else◌, length, set, drain, drop, get_elem?, ◌>>=?◌,
}
use neo_lang.Prelude.Int.{ℤ, pos, fits, to_bits}
use neo_lang.OpCode.{OpCode, ◌==op◌}
use neo_lang.Instruction.{Instruction, instruction, encoded_len, bytecode_offset_of}
use neo_lang.Peephole.Slots.{
  Patch, call_patch_touches_range, shift_call_patches_after_remove, store_slot, load_local_slot,
  load_slot,
}
use neo_lang.Peephole.Relayout.{
  prefix_byte_offsets, map_byte_offset_after_delete, map_byte_offset_after_strict_remove,
  read_i32_le, operand_as_i8, relayout_one,
}

-- The instructions and the patches of a function.
pub record Code : Type 0 where
  pub inst : List Instruction
  pub patches : List Patch

-- `first.is_some() && first == second`.
unfoldable pub same_slot : Option ℕ → Option ℕ → Bool
same_slot none _ = false
same_slot (some a) none = false
same_slot (some a) (some b) = a == b

abbrev pub first_slot_of {ℓ} : {A : Type ℓ} → (OpCode → List ℕ → A) → Instruction → A
first_slot_of slot i = slot i.opcode i.operands

-- `while index + w <= inst.len()`: an edit is followed by a scan from the same index.
unfoldable pub scan : ℕ → (Code → ℕ → Option Code) → ℕ → Code → ℕ → Bool → Option (Code × Bool)
scan w edit zero c index changed = none
scan w edit (suc fuel) c index changed = elim (leb (index + w) (length c.inst)) [
  | false ↦ some (c, changed)
  | true ↦ elim (edit c index) [
    | some c' ↦ scan w edit fuel c' index true
    | none ↦ scan w edit fuel c (index + 1) changed
  ]
]

-- A loop over all indices from 0, with enough fuel.
unfoldable pub run_pass : ℕ → (Code → ℕ → Option Code) → Code → Option (Code × Bool)
run_pass w edit c = scan w edit (suc (length c.inst)) c 0 false

unfoldable pub merge_pair : Code → ℕ → Option Instruction → Option Instruction → Bool
merge_pair c index (some first) (some second) =
    same_slot (first_slot_of load_slot first) (first_slot_of load_slot second)
    && not (call_patch_touches_range c.patches index 2)
merge_pair c index _ _ = false

-- One round of the loop of `merge_adjacent_duplicate_loads`.
unfoldable pub merge_at : Code → ℕ → Code × Bool
unfolding merge_pair same_slot
merge_at c index =
    if merge_pair c index (get_elem? c.inst index) (get_elem? c.inst (index + 1))
    then (record c { inst = set c.inst (index + 1) (instruction OpCode.dup []) }, true)
    else (c, false)

-- The loop has `count` rounds left.
unfoldable pub merge_from : ℕ → Code → ℕ → Bool → Code × Bool
merge_from zero c index changed = (c, changed)
merge_from (suc count) c index changed =
    let (c', now) = merge_at c index in merge_from count c' (index + 1) (changed || now)

-- The length of the list stays, so the loop has one round less than instructions.
unfoldable pub merge_adjacent_duplicate_loads : Code → Code × Bool
unfolding merge_from
merge_adjacent_duplicate_loads c = merge_from (length c.inst - 1) c 0 false

-- `inst.drain(index..index + n)` and the shift of the patches.
unfoldable pub remove_at : Code → ℕ → ℕ → Code
remove_at c index n = record {
  inst = drain c.inst index n;
  patches = shift_call_patches_after_remove c.patches index n;
}

unfoldable pub dup_drop_pair : Option Instruction → Option Instruction → Bool
dup_drop_pair (some first) (some second) =
    (first.opcode ==op OpCode.dup) && (second.opcode ==op OpCode.drop)
dup_drop_pair _ _ = false

unfoldable pub dup_drop_at : Code → ℕ → Option Code
unfolding dup_drop_pair remove_at
dup_drop_at c index =
    if dup_drop_pair (get_elem? c.inst index) (get_elem? c.inst (index + 1))
    then (if call_patch_touches_range c.patches index 2 then none else some (remove_at c index 2))
    else none

unfoldable pub peel_redundant_dup_drop : Code → Option (Code × Bool)
peel_redundant_dup_drop = run_pass 2 dup_drop_at

-- The inner loop: no load of slot `n` before the next store to it.
unfoldable pub not_reloaded : ℕ → List Instruction → Bool
unfolding same_slot
not_reloaded n [] = true
not_reloaded n (i ∷ is) =
    if same_slot (first_slot_of load_local_slot i) (some n)
    then false
    else if same_slot (first_slot_of store_slot i) (some n)
    then true
    else not_reloaded n is

unfoldable pub stloc_ldloc_slot : Option Instruction → Option Instruction → Option ℕ
stloc_ldloc_slot (some first) (some second) =
    if same_slot (first_slot_of store_slot first) (first_slot_of load_local_slot second)
    then first_slot_of store_slot first
    else none
stloc_ldloc_slot _ _ = none

unfoldable pub stloc_ldloc_at : Code → ℕ → Option Code
unfolding stloc_ldloc_slot remove_at
stloc_ldloc_at c index =
    stloc_ldloc_slot (get_elem? c.inst index) (get_elem? c.inst (index + 1)) >>=? λ n.
    if call_patch_touches_range c.patches index 2
    then none
    else if not_reloaded n (drop (index + 2) c.inst)
    then some (remove_at c index 2)
    else none

unfoldable pub peel_redundant_stloc_ldloc_pair : Code → Option (Code × Bool)
peel_redundant_stloc_ldloc_pair = run_pass 2 stloc_ldloc_at

-- `relayout_pc_relatives`: each instruction with its offset before and after the edit.
unfoldable pub relayout_pc_relatives :
    (ℕ → Option ℕ) → List ℕ → List ℕ → List Instruction → Option (List Instruction)
relayout_pc_relatives map_abs (old ∷ olds) (new ∷ news) (i ∷ is) =
    relayout_one map_abs old new i >>=? λ i'.
    relayout_pc_relatives map_abs olds news is >>=? λ is'. some (i' ∷ is')
relayout_pc_relatives map_abs _ _ is = some is

-- The offset of a jump with an operand of the length that its opcode takes.
unfoldable pub uncond_jmp_offset : Instruction → Option ℤ
uncond_jmp_offset i =
    if (i.opcode ==op OpCode.jmp_l) && (length i.operands == 4)
    then read_i32_le i.operands
    else if (i.opcode ==op OpCode.jmp) && (length i.operands == 1)
    then operand_as_i8 i.operands
    else none

-- `relative == jmp_len`.
unfoldable pub falls_through : Instruction → Option ℤ → Bool
falls_through i (some (pos n)) = n == encoded_len i
falls_through i _ = false

-- The trial without the jump at `index`, its operands re-encoded. `old_index` skips the jump, so
-- the offsets before are those of the other instructions.
unfoldable pub delete_jump : Code → ℕ → Instruction → Option (List Instruction)
delete_jump c index i =
    let trial = drain c.inst index 1 in
    relayout_pc_relatives
      (λ p. some (map_byte_offset_after_delete p (bytecode_offset_of c.inst index) (encoded_len i)))
      (drain (prefix_byte_offsets c.inst) index 1) (prefix_byte_offsets trial) trial

unfoldable pub jmp_to_next : Code → ℕ → Option Instruction → Option Code
jmp_to_next c index none = none
jmp_to_next c index (some i) =
    if falls_through i (uncond_jmp_offset i)
      && ltb (index + 1) (length c.inst)
      && not (call_patch_touches_range c.patches index 1)
    then (delete_jump c index i >>=? λ trial.
        some (record { inst = trial; patches = shift_call_patches_after_remove c.patches index 1 }))
    else none

unfoldable pub jmp_to_next_at : Code → ℕ → Option Code
unfolding jmp_to_next
jmp_to_next_at c index = jmp_to_next c index (get_elem? c.inst index)

unfoldable pub peel_redundant_uncond_jmp_to_next : Code → Option (Code × Bool)
peel_redundant_uncond_jmp_to_next = run_pass 1 jmp_to_next_at

unfoldable pub long_pc_branch_to_short_opcode : OpCode → Option OpCode
long_pc_branch_to_short_opcode OpCode.jmp_l = some OpCode.jmp
long_pc_branch_to_short_opcode OpCode.jmpif_l = some OpCode.jmpif
long_pc_branch_to_short_opcode OpCode.jmpifnot_l = some OpCode.jmpifnot
long_pc_branch_to_short_opcode OpCode.jmpeq_l = some OpCode.jmpeq
long_pc_branch_to_short_opcode OpCode.jmpne_l = some OpCode.jmpne
long_pc_branch_to_short_opcode OpCode.jmpgt_l = some OpCode.jmpgt
long_pc_branch_to_short_opcode OpCode.jmpge_l = some OpCode.jmpge
long_pc_branch_to_short_opcode OpCode.jmplt_l = some OpCode.jmplt
long_pc_branch_to_short_opcode OpCode.jmple_l = some OpCode.jmple
long_pc_branch_to_short_opcode OpCode.endtry_l = some OpCode.endtry
long_pc_branch_to_short_opcode _ = none

-- The trial with the short form, its operands re-encoded; `none` where a target lay inside the
-- three bytes that go.
unfoldable pub shortened : List Instruction → ℕ → OpCode → ℤ → Option (List Instruction)
shortened is index short_op relative =
    let trial = set is index (instruction short_op (to_bits (2 ^ 7) relative ∷ [])) in
    relayout_pc_relatives
      (λ p. map_byte_offset_after_strict_remove p (bytecode_offset_of is index + 2) 3)
      (prefix_byte_offsets is) (prefix_byte_offsets trial) trial

shorten_found : List Instruction → ℕ → Option Instruction → Option (List Instruction)
shorten_found is index none = none
shorten_found is index (some i) = long_pc_branch_to_short_opcode i.opcode >>=? λ short_op.
    (if length i.operands == 4 then read_i32_le i.operands else none) >>=? λ relative.
    if fits (2 ^ 7) relative then shortened is index short_op relative else none

unfoldable pub try_shorten_long_pc_branch_at : List Instruction → ℕ → Option (List Instruction)
unfolding shorten_found
try_shorten_long_pc_branch_at is index = shorten_found is index (get_elem? is index)

-- The indices from `index` on, `count` of them.
unfoldable pub shorten_from : ℕ → ℕ → List Instruction → Bool → List Instruction × Bool
shorten_from zero index is changed = (is, changed)
shorten_from (suc count) index is changed = elim (try_shorten_long_pc_branch_at is index) [
  | some is' ↦ shorten_from count (index + 1) is' true
  | none ↦ shorten_from count (index + 1) is changed
]

unfoldable pub shorten_long_pc_relative_branches : List Instruction → List Instruction × Bool
shorten_long_pc_relative_branches is = shorten_from (length is) 0 is false

-- The body of the loop of `optimize`: the code and whether a pass changed it.
unfoldable pub optimize_round : Code → Option (Code × Bool)
optimize_round c =
    let (c, merged) = merge_adjacent_duplicate_loads c in
    peel_redundant_dup_drop c >>=? λ dropped.
    peel_redundant_stloc_ldloc_pair dropped.0 >>=? λ paired.
    peel_redundant_uncond_jmp_to_next paired.0 >>=? λ jumped.
    let (inst, shorter) = shorten_long_pc_relative_branches jumped.0.inst in
    some (
      record { inst = inst; patches = jumped.0.patches },
      merged || dropped.1 || paired.1 || jumped.1 || shorter,
    )

unfoldable pub optimize_rounds : ℕ → Code → Option Code
optimize_rounds zero c = some c
optimize_rounds (suc round) c = elim (optimize_round c) [
  | none ↦ none
  | some (c', changed) ↦ elim changed [ true ↦ optimize_rounds round c' | false ↦ some c' ]
]

-- `MAX_ROUNDS` is 64.
unfoldable pub optimize : Code → Option Code
optimize = optimize_rounds 64
