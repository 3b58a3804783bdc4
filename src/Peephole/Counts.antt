-- ===== src/Peephole/Counts.antt =====
-- Which `CALL_L` of the code an index is at: the number of them in front of it, through the edits of
-- the passes (neo-compiler/src/codegen/opt.rs).
use neo_lang.Prelude.{
  sym, ℕ, zero, suc, ◌+◌, ◌≤◌, ◌<◌, ◌≡◌, ◌≢◌, refl, ap, ◌∙◌, true, false, some, List, [], ◌∷◌,
  arith, map, length, set, drain, drop, get_elem?, inl, inr, Bool-cases, if◌then◌else◌,
  before_drain, drain-nil, drain-zero, drain-suc, ltb, ltb→lt, ltb→ge, lt→ltb, ge→ltb, length-set,
  length-drain, ◌==◌, eqb→eq, eqb→ne,
}
use mathlib.Core.Path.{ap₂}
use neo_lang.OpCode.{OpCode, ◌==op◌}
use neo_lang.OpCode.TryFrom.{==op→eq}
use neo_lang.Instruction.{Instruction}

unfoldable pub one_call : OpCode → ℕ
one_call op = if op ==op OpCode.call_l then 1 else 0

-- The number of `CALL_L` instructions in front of an index.
unfoldable pub calls_before : List Instruction → ℕ → ℕ
unfolding one_call
calls_before [] k = 0
calls_before (i ∷ is) zero = 0
calls_before (i ∷ is) (suc k) = one_call i.opcode + calls_before is k

-- The number of `CALL_L` instructions.
unfoldable pub calls : List Instruction → ℕ
calls is = calls_before is (length is)

one_call-other : (op : OpCode) → op ≢ OpCode.call_l → one_call op ≡ 0
unfolding one_call
one_call-other op other = elim (Bool-cases (op ==op OpCode.call_l)) [
  | inl e ↦ absurd (other (==op→eq op OpCode.call_l e))
  | inr e ↦ rw e refl
]

-- Only the opcodes count.
pub calls_before-opcodes :
    (is is' : List Instruction) (k : ℕ)
    → map (λ i. i.opcode) is' ≡ map (λ i. i.opcode) is
    → calls_before is' k ≡ calls_before is k
unfolding calls_before
calls_before-opcodes [] [] k h = refl
calls_before-opcodes [] (i ∷ is') k h = absurd (cc)
calls_before-opcodes (i ∷ is) [] k h = absurd (cc)
calls_before-opcodes (i ∷ is) (i' ∷ is') zero h = refl
calls_before-opcodes (i ∷ is) (i' ∷ is') (suc k) h =
    let same : i'.opcode ≡ i.opcode = cc in
    let rest : map (λ i. i.opcode) is' ≡ map (λ i. i.opcode) is = cc in
    ap₂ ◌+◌ (ap one_call same) (calls_before-opcodes is is' k rest)

-- Replacing an instruction that is no `CALL_L` by another such keeps the count.
pub calls_before-set :
    (is : List Instruction) (index k : ℕ) (old new : Instruction)
    → get_elem? is index ≡ some old
    → old.opcode ≢ OpCode.call_l
    → new.opcode ≢ OpCode.call_l
    → calls_before (set is index new) k ≡ calls_before is k
unfolding calls_before
calls_before-set [] index k old new here o n = refl
calls_before-set (i ∷ is) zero zero old new here o n = refl
calls_before-set (i ∷ is) zero (suc k) old new here o n =
    let same : i ≡ old = cc in
    let none_new = one_call-other new.opcode n in
    let none_old : one_call i.opcode ≡ 0 =
      ap (λ t. one_call t.opcode) same ∙ one_call-other old.opcode o in
    rw (none_new, none_old) refl
calls_before-set (i ∷ is) (suc index) zero old new here o n = refl
calls_before-set (i ∷ is) (suc index) (suc k) old new here o n =
    ap (λ t. one_call i.opcode + t) (calls_before-set is index k old new here o n)

-- No `CALL_L` stands among the `n` instructions from an index on.
abbrev pub NoCalls : List Instruction → ℕ → ℕ → Type 0
NoCalls is index n =
    (j : ℕ) (i : Instruction)
    → index ≤ j
    → j < index + n
    → get_elem? is j ≡ some i
    → i.opcode ≢ OpCode.call_l

-- Two neighbours that are no `CALL_L`.
pub two-NoCalls :
    (is : List Instruction) (index : ℕ) (a b : Instruction)
    → get_elem? is index ≡ some a
    → get_elem? is (index + 1) ≡ some b
    → a.opcode ≢ OpCode.call_l
    → b.opcode ≢ OpCode.call_l
    → NoCalls is index 2
two-NoCalls is index a b at_a at_b na nb j i lo hi here call = elim (Bool-cases (j == index)) [
  | inl e ↦
      let j_is = eqb→eq j index e in
      let here' : get_elem? is index ≡ some i = ap (get_elem? is) (sym j_is) ∙ here in
      let same : a ≡ i = cc in na (ap (λ t. t.opcode) same ∙ call)
  | inr e ↦
      let j_not = eqb→ne j index e in
      let j_is : index + 1 ≡ j = omega arith in
      let here' : get_elem? is (index + 1) ≡ some i = ap (get_elem? is) j_is ∙ here in
      let same : b ≡ i = cc in nb (ap (λ t. t.opcode) same ∙ call)
]

calls_before-drop :
    (is : List Instruction) (n k : ℕ)
    → NoCalls is 0 n
    → calls_before (drop n is) k ≡ calls_before is (k + n)
unfolding calls_before
calls_before-drop is zero k free = ap (calls_before is) (omega arith)
calls_before-drop [] (suc n) k free = refl
calls_before-drop (i ∷ is) (suc n) k free =
    let quiet = one_call-other i.opcode (free 0 i (omega arith) (omega arith) refl) in
    let rest =
      calls_before-drop is n k
        (λ j x lo hi here. free (suc j) x (omega arith) (omega arith) here) in
    let next : k + suc n ≡ suc (k + n) = omega arith in rw next (rw quiet (omega (arith, rest)))

-- Removing instructions among which there is no `CALL_L` keeps the number in front of what stays.
pub calls_before-drain :
    (is : List Instruction) (index n k : ℕ)
    → NoCalls is index n
    → calls_before (drain is index n) k ≡ calls_before is (before_drain index n k)
unfolding calls_before
calls_before-drain [] index n k free = ap (λ t. calls_before t k) (drain-nil index n)
calls_before-drain (x ∷ xs) zero n k free =
    let off : ltb k 0 ≡ false = ge→ltb k 0 (omega arith) in
    ap (λ t. calls_before t k) (drain-zero (x ∷ xs) n)
    ∙ calls_before-drop (x ∷ xs) n k (λ j i lo hi here. free j i lo (omega arith) here)
    ∙ rw off refl
calls_before-drain (x ∷ xs) (suc i) n zero free =
    let on : ltb 0 (suc i) ≡ true = lt→ltb 0 (suc i) (omega arith) in
    ap (λ t. calls_before t 0) (drain-suc x xs i n) ∙ rw on refl
calls_before-drain (x ∷ xs) (suc i) n (suc k) free =
    let rest =
      calls_before-drain xs i n k
        (λ j y lo hi here. free (suc j) y (omega arith) (omega arith) here) in
    ap (λ t. calls_before t (suc k)) (drain-suc x xs i n)
    ∙ ap (λ t. one_call x.opcode + t) rest
    ∙ elim (Bool-cases (ltb k i)) [
      | inl on ↦
          let on' : ltb (suc k) (suc i) ≡ true =
            lt→ltb (suc k) (suc i) (omega (arith, ltb→lt k i on)) in
          rw (on, on') refl
      | inr off ↦
          let off' : ltb (suc k) (suc i) ≡ false =
            ge→ltb (suc k) (suc i) (omega (arith, ltb→ge k i off)) in
          let e : suc k + n ≡ suc (k + n) = omega arith in rw (off, off', e) refl
    ]

-- The number of all of them, in the same three cases.
pub calls-opcodes :
    (is is' : List Instruction)
    → length is' ≡ length is
    → map (λ i. i.opcode) is' ≡ map (λ i. i.opcode) is
    → calls is' ≡ calls is
unfolding calls
calls-opcodes is is' len h = calls_before-opcodes is is' (length is') h ∙ ap (calls_before is) len

pub calls-set :
    (is : List Instruction) (index : ℕ) (old new : Instruction)
    → get_elem? is index ≡ some old
    → old.opcode ≢ OpCode.call_l
    → new.opcode ≢ OpCode.call_l
    → calls (set is index new) ≡ calls is
unfolding calls
calls-set is index old new here o n =
    calls_before-set is index (length (set is index new)) old new here o n
    ∙ ap (calls_before is) (length-set is index new)

pub calls-drain :
    (is : List Instruction) (index n : ℕ)
    → index + n ≤ length is
    → NoCalls is index n
    → calls (drain is index n) ≡ calls is
unfolding calls
calls-drain is index n room free =
    let len = length-drain {0} is index n room in
    let off : ltb (length (drain is index n)) index ≡ false =
      ge→ltb (length (drain is index n)) index (omega arith) in
    calls_before-drain is index n (length (drain is index n)) free
    ∙ rw off (ap (calls_before is) len)
