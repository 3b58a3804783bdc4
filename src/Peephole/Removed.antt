-- ===== src/Peephole/Removed.antt =====
-- What the passes of codegen/opt.rs remove or replace is no `CALL_L`.
use neo_lang.Prelude.{
  ℕ, ◌+◌, ◌≡◌, ◌≢◌, refl, sym, ap, ◌∙◌, true, false, Option, none, some, List, inl, inr, Bool-cases,
  Option-cases, get_elem?, arith,
}
use neo_lang.OpCode.{OpCode, ◌==op◌, byte}
use neo_lang.OpCode.TryFrom.{==op→eq}
use neo_lang.Instruction.{Instruction, instruction}
use neo_lang.Peephole.Slots.{store_slot, load_local_slot, load_slot}
use neo_lang.Peephole.Passes.{
  same_slot, dup_drop_pair, stloc_ldloc_slot, uncond_jmp_offset, falls_through,
  long_pc_branch_to_short_opcode,
}
use neo_lang.Peephole.Counts.{NoCalls, two-NoCalls}

pub same_slot-none : (a : Option ℕ) → same_slot a none ≡ false
unfolding same_slot
same_slot-none none = refl
same_slot-none (some a) = refl

-- Two instructions, neither of them a `CALL_L`.
record Plain (a b : Option Instruction) : Type 0 where
  first : Instruction
  second : Instruction
  is_first : a ≡ some first
  is_second : b ≡ some second
  first_other : first.opcode ≢ OpCode.call_l
  second_other : second.opcode ≢ OpCode.call_l

Plain-NoCalls :
    (is : List Instruction) (index : ℕ)
    → Plain (get_elem? is index) (get_elem? is (index + 1))
    → NoCalls is index 2
Plain-NoCalls is index p =
    two-NoCalls is index p.first p.second p.is_first p.is_second p.first_other p.second_other

dup_drop-Plain : (a b : Option Instruction) → dup_drop_pair a b ≡ true → Plain a b
unfolding dup_drop_pair
dup_drop-Plain none b h = absurd (cc)
dup_drop-Plain (some x) none h = absurd (cc)
dup_drop-Plain (some x) (some y) h = elim (Bool-cases (x.opcode ==op OpCode.dup)) [
  | inr e ↦ let h' = rw e at h in absurd (cc)
  | inl e ↦
      let second_is = ==op→eq y.opcode OpCode.drop (rw e at h) in
      let first_is = ==op→eq x.opcode OpCode.dup e in
      record {
        first = x;
        second = y;
        is_first = refl;
        is_second = refl;
        first_other = λ call. absurd (cc);
        second_other = λ call. absurd (cc);
      }
]

pub dup_drop-NoCalls :
    (is : List Instruction) (index : ℕ)
    → dup_drop_pair (get_elem? is index) (get_elem? is (index + 1)) ≡ true
    → NoCalls is index 2
dup_drop-NoCalls is index h = Plain-NoCalls is index (dup_drop-Plain _ _ h)

store_slot-other :
    (op : OpCode) (bytes : List ℕ) (n : ℕ) → store_slot op bytes ≡ some n → op ≢ OpCode.call_l
unfolding store_slot
store_slot-other op bytes n h call = let h' = rw call at h in absurd (cc)

load_local_slot-other :
    (op : OpCode) (bytes : List ℕ) (n : ℕ) → load_local_slot op bytes ≡ some n → op ≢ OpCode.call_l
unfolding load_local_slot
load_local_slot-other op bytes n h call = let h' = rw call at h in absurd (cc)

stloc_ldloc-Plain : (a b : Option Instruction) (n : ℕ) → stloc_ldloc_slot a b ≡ some n → Plain a b
unfolding stloc_ldloc_slot
stloc_ldloc-Plain none b n h = absurd (cc)
stloc_ldloc-Plain (some x) none n h = absurd (cc)
stloc_ldloc-Plain (some x) (some y) n h =
    elim (Bool-cases
      (same_slot (store_slot x.opcode x.operands) (load_local_slot y.opcode y.operands))) [
        | inr e ↦ let h' = rw e at h in absurd (cc)
        | inl e ↦ elim (Option-cases (load_local_slot y.opcode y.operands)) [
          | inl e2 ↦
              let off = same_slot-none (store_slot x.opcode x.operands) in
              let e' = rw e2 at e in absurd (cc)
          | inr (m, e2) ↦ record {
            first = x;
            second = y;
            is_first = refl;
            is_second = refl;
            first_other = store_slot-other x.opcode x.operands n (rw e at h);
            second_other = load_local_slot-other y.opcode y.operands m e2;
          }
        ]
      ]

pub stloc_ldloc-NoCalls :
    (is : List Instruction) (index n : ℕ)
    → stloc_ldloc_slot (get_elem? is index) (get_elem? is (index + 1)) ≡ some n
    → NoCalls is index 2
stloc_ldloc-NoCalls is index n h = Plain-NoCalls is index (stloc_ldloc-Plain _ _ n h)

call_falls : (bytes : List ℕ) → uncond_jmp_offset (instruction OpCode.call_l bytes) ≡ none
unfolding uncond_jmp_offset ◌==op◌ byte
call_falls bytes = refl

falls_through-other :
    (i : Instruction) → falls_through i (uncond_jmp_offset i) ≡ true → i.opcode ≢ OpCode.call_l
unfolding falls_through
falls_through-other i h call =
    let off : uncond_jmp_offset i ≡ none =
      ap (λ op. uncond_jmp_offset (instruction op i.operands)) call ∙ call_falls i.operands in
    let h' = rw off at h in absurd (cc)

pub falls_through-NoCalls :
    (is : List Instruction) (index : ℕ) (a : Instruction)
    → get_elem? is index ≡ some a
    → falls_through a (uncond_jmp_offset a) ≡ true
    → NoCalls is index 1
falls_through-NoCalls is index a at_a falls j i lo hi here call =
    let j_is : j ≡ index = omega arith in
    let here' : get_elem? is index ≡ some i = ap (get_elem? is) (sym j_is) ∙ here in
    let same : a ≡ i = cc in falls_through-other a falls (ap (λ t. t.opcode) same ∙ call)

pub load_slot-other :
    (op : OpCode) (bytes : List ℕ) (n : ℕ) → load_slot op bytes ≡ some n → op ≢ OpCode.call_l
unfolding load_slot
load_slot-other op bytes n h call = let h' = rw call at h in absurd (cc)

-- Neither the long form of a branch nor its short form.
pub call_l_long :
    (op short : OpCode) → long_pc_branch_to_short_opcode op ≡ some short → op ≢ OpCode.call_l
unfolding long_pc_branch_to_short_opcode
call_l_long op short h e = let h' = rw e at h in absurd (cc)

pub call_l_short :
    (op short : OpCode) → long_pc_branch_to_short_opcode op ≡ some short → short ≢ OpCode.call_l
unfolding long_pc_branch_to_short_opcode
call_l_short OpCode.jmp_l short h e = absurd (cc)
call_l_short OpCode.pushint8 short h e = absurd (cc)
call_l_short _ short h e = absurd (cc)
