-- ===== src/Ir/DeadCode.antt =====
-- The values that the elimination of dead code marks: the fuel is enough, and the set is closed.
use neo_lang.Prelude.{
  subst, ℕ, zero, suc, ◌+◌, ◌≤◌, ◌≡◌, refl, sym, ap, ◌⊎◌, inl, inr, true, false, some, List, [],
  ◌∷◌, ◌++◌, ◌==◌, Bool-cases, Option-cases, eqb→eq, eqb_refl, length, length-append, arith,
  if◌then◌else◌,
}
use mathlib.Core.Option.{some-injective}
use neo_lang.Ir.{Instr}
use neo_lang.Ir.Uses.{collect_uses_in_instr}
use neo_lang.Ir.Passes.{contains, def_of, uses_of, mark, total_uses}

abbrev pub IsMarked : List ℕ → ℕ → Type 0
IsMarked used v = contains used v ≡ true

-- What the instruction pushes if its value is not marked.
unfoldable weight : List ℕ → ℕ → Instr → ℕ
weight used out instr = if contains used out then 0 else length (collect_uses_in_instr instr)

pub open_uses : List ℕ → List (ℕ × Instr) → ℕ
open_uses used [] = 0
open_uses used ((out, instr) ∷ rest) = weight used out instr + open_uses used rest

pub open_uses_nil : (defs : List (ℕ × Instr)) → open_uses [] defs ≡ total_uses defs
unfolding open_uses total_uses contains weight
open_uses_nil [] = refl
open_uses_nil ((out, instr) ∷ rest) =
    ap (◌+◌ (length (collect_uses_in_instr instr))) (open_uses_nil rest)

contains-cons_other :
    (used : List ℕ) (x v : ℕ) → (x == v) ≡ false → contains (x ∷ used) v ≡ contains used v
unfolding contains
contains-cons_other used x v e = rw e refl

pub contains-cons_self : (used : List ℕ) (v : ℕ) → contains (v ∷ used) v ≡ true
unfolding contains
contains-cons_self used v = rw (eqb_refl v) refl

weight_marked : (used : List ℕ) (v : ℕ) (instr : Instr) → weight (v ∷ used) v instr ≡ 0
unfolding weight
weight_marked used v instr = rw (contains-cons_self used v) refl

pub contains-cons_keeps : (used : List ℕ) (x v : ℕ) → IsMarked used v → IsMarked (x ∷ used) v
unfolding contains
contains-cons_keeps used x v h = elim (Bool-cases (x == v)) [ inl e ↦ rw e refl | inr e ↦ rw e h ]

weight-cons_le :
    (used : List ℕ) (v out : ℕ) (instr : Instr)
    → weight (v ∷ used) out instr ≤ weight used out instr
unfolding weight
weight-cons_le used v out instr = elim (Bool-cases (contains used out)) [
  | inl e ↦ rw (e, contains-cons_keeps used v out e) (omega arith)
  | inr e ↦ elim (Bool-cases (contains (v ∷ used) out)) [
    | inl e' ↦ rw (e, e') (omega arith)
    | inr e' ↦ rw (e, e') (omega arith)
  ]
]

open_uses-cons_le :
    (used : List ℕ) (v : ℕ) (defs : List (ℕ × Instr))
    → open_uses (v ∷ used) defs ≤ open_uses used defs
unfolding open_uses
open_uses-cons_le used v [] = omega arith
open_uses-cons_le used v ((out, instr) ∷ rest) =
    omega (arith, open_uses-cons_le used v rest, weight-cons_le used v out instr)

weight_new :
    (used : List ℕ) (v : ℕ) (instr : Instr)
    → contains used v ≡ false
    → weight used v instr ≡ length (collect_uses_in_instr instr)
unfolding weight
weight_new used v instr new = rw new refl

-- Marking a value pays for the uses that it pushes.
open_uses-cons :
    (used : List ℕ) (v : ℕ) (defs : List (ℕ × Instr))
    → contains used v ≡ false
    → length (uses_of (def_of defs v)) + open_uses (v ∷ used) defs ≤ open_uses used defs
unfolding def_of uses_of open_uses
open_uses-cons used v [] new = omega arith
open_uses-cons used v ((out, instr) ∷ rest) new =
    let ih = open_uses-cons used v rest new in
    let head = weight-cons_le used v out instr in
    elim (Option-cases (def_of rest v)) [
      | inr (later, e) ↦ let ih' = rw e at ih in rw e (omega (arith, ih', head))
      | inl e ↦ elim (Bool-cases (out == v)) [
        | inl same ↦
            let tail = open_uses-cons_le used v rest in
            let here =
              subst (λ (x : ℕ). weight (v ∷ used) x instr ≡ 0) (sym (eqb→eq out v same))
                (weight_marked used v instr) in
            let was =
              subst (λ (x : ℕ). weight used x instr ≡ length (collect_uses_in_instr instr))
                (sym (eqb→eq out v same)) (weight_new used v instr new) in
            rw (e, same) (omega (arith, tail, here, was))
        | inr other ↦
            let tail = open_uses-cons_le used v rest in rw (e, other) (omega (arith, tail, head))
      ]
    ]

-- Enough fuel for every value to be expanded once.
pub mark_terminates :
    (fuel : ℕ) (defs : List (ℕ × Instr)) (used work : List ℕ)
    → length work + open_uses used defs ≤ fuel
    → (marked : List ℕ) × (mark fuel defs used work ≡ some marked)
unfolding mark
mark_terminates zero defs used [] h = (used, refl)
mark_terminates (suc fuel) defs used [] h = (used, refl)
mark_terminates zero defs used (v ∷ work) h = absurd (omega (arith, h))
mark_terminates (suc fuel) defs used (v ∷ work) h =
    let skip = mark_terminates fuel defs used work (omega (arith, h)) in
    elim (Bool-cases (contains used v)) [
      | inl e ↦ (skip.0, rw e skip.1)
      | inr e ↦
          let pays = open_uses-cons used v defs e in
          let pushed = length-append work (uses_of (def_of defs v)) in
          let expand =
            mark_terminates fuel defs (v ∷ used) (work ++ uses_of (def_of defs v))
              (omega (arith, h, pays, pushed)) in
          (expand.0, rw e expand.1)
    ]

pub not-contains_nil : (x : ℕ) → ¬ IsMarked [] x
unfolding contains
not-contains_nil x h = cc

pub contains-append_left : (xs ys : List ℕ) (v : ℕ) → IsMarked xs v → IsMarked (xs ++ ys) v
unfolding contains
contains-append_left [] ys v h = absurd (cc)
contains-append_left (x ∷ xs) ys v h = elim (Bool-cases (x == v)) [
  | inl e ↦ rw e refl
  | inr e ↦ rw e (contains-append_left xs ys v (rw e at h))
]

pub contains-append_right : (xs ys : List ℕ) (v : ℕ) → IsMarked ys v → IsMarked (xs ++ ys) v
unfolding contains
contains-append_right [] ys v h = h
contains-append_right (x ∷ xs) ys v h = elim (Bool-cases (x == v)) [
  | inl e ↦ rw e refl
  | inr e ↦ rw e (contains-append_right xs ys v h)
]

contains-cons : (xs : List ℕ) (x v : ℕ) → IsMarked (x ∷ xs) v → (x ≡ v) ⊎ IsMarked xs v
unfolding contains
contains-cons xs x v h = elim (Bool-cases (x == v)) [
  | inl e ↦ inl (eqb→eq x v e)
  | inr e ↦ inr (rw e at h)
]

-- The uses of a marked value's definition are marked, or in the queue.
abbrev pub IsPending : List (ℕ × Instr) → List ℕ → List ℕ → Type 0
IsPending defs used work =
    (v x : ℕ)
    → IsMarked used v
    → IsMarked (uses_of (def_of defs v)) x
    → IsMarked used x ⊎ IsMarked work x

-- With a value, the uses of its definition are marked.
abbrev pub IsClosed : List (ℕ × Instr) → List ℕ → Type 0
IsClosed defs marked =
    (v x : ℕ) → IsMarked marked v → IsMarked (uses_of (def_of defs v)) x → IsMarked marked x

abbrev pub Covers : List ℕ → List ℕ → Type 0
Covers marked work = (x : ℕ) → IsMarked work x → IsMarked marked x

IsPending-skip :
    (defs : List (ℕ × Instr)) (used work : List ℕ) (v : ℕ)
    → IsMarked used v
    → IsPending defs used (v ∷ work)
    → IsPending defs used work
IsPending-skip defs used work v old pending u x h k = elim (pending u x h k) [
  | inl m ↦ inl m
  | inr m ↦ elim (contains-cons work v x m) [
    | inl e ↦ inl (subst (IsMarked used) e old)
    | inr m' ↦ inr m'
  ]
]

IsPending-expand :
    (defs : List (ℕ × Instr)) (used work : List ℕ) (v : ℕ)
    → IsPending defs used (v ∷ work)
    → IsPending defs (v ∷ used) (work ++ uses_of (def_of defs v))
IsPending-expand defs used work v pending u x h k = elim (contains-cons used v u h) [
  | inl e ↦
      let k' = subst (λ (w : ℕ). IsMarked (uses_of (def_of defs w)) x) (sym e) k in
      inr (contains-append_right work (uses_of (def_of defs v)) x k')
  | inr old ↦ elim (pending u x old k) [
    | inl m ↦ inl (contains-cons_keeps used v x m)
    | inr m ↦ elim (contains-cons work v x m) [
      | inl e ↦ inl (subst (IsMarked (v ∷ used)) e (contains-cons_self used v))
      | inr m' ↦ inr (contains-append_left work (uses_of (def_of defs v)) x m')
    ]
  ]
]

pub mark-IsClosed :
    (fuel : ℕ) (defs : List (ℕ × Instr)) (used work marked : List ℕ)
    → mark fuel defs used work ≡ some marked
    → IsPending defs used work
    → IsClosed defs marked × Covers marked used × Covers marked work
unfolding mark
mark-IsClosed zero defs used (v ∷ work) marked h pending = absurd (cc)
mark-IsClosed fuel defs used [] marked h pending =
    let same = some-injective used marked h in
    (
      λ v x m k. elim (pending v x (subst (λ (l : List ℕ). IsMarked l v) (sym same) m) k) [
        | inl m' ↦ subst (λ (l : List ℕ). IsMarked l x) same m'
        | inr m' ↦ absurd (not-contains_nil x m')
      ],
      λ x m. subst (λ (l : List ℕ). IsMarked l x) same m,
      λ x m. absurd (not-contains_nil x m),
    )
mark-IsClosed (suc fuel) defs used (v ∷ work) marked h pending =
    elim (Bool-cases (contains used v)) [
      | inl e ↦
          let (closed, olds, news) =
            mark-IsClosed fuel defs used work marked (rw e at h)
              (IsPending-skip defs used work v e pending) in
          (
            closed,
            olds,
            λ x m. elim (contains-cons work v x m) [
              | inl same ↦ olds x (subst (IsMarked used) same e)
              | inr m' ↦ news x m'
            ],
          )
      | inr e ↦
          let (closed, olds, news) =
            mark-IsClosed fuel defs (v ∷ used) (work ++ uses_of (def_of defs v)) marked (rw e at h)
              (IsPending-expand defs used work v pending) in
          (
            closed,
            λ x m. olds x (contains-cons_keeps used v x m),
            λ x m. elim (contains-cons work v x m) [
              | inl same ↦ olds x (subst (IsMarked (v ∷ used)) same (contains-cons_self used v))
              | inr m' ↦ news x (contains-append_left work (uses_of (def_of defs v)) x m')
            ],
          )
    ]
