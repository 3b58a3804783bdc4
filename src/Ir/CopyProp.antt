-- ===== src/Ir/CopyProp.antt =====
-- Copy propagation keeps what a block does.
use neo_lang.Prelude.{
  ℕ, ◌≡◌, refl, sym, ap, subst, ◌∙◌, inl, inr, true, false, none, some, List, [], ◌∷◌, ◌==◌,
  Bool-cases, eqb→eq, eqb_refl,
}
use mathlib.Core.Option.{some-injective}
use neo_lang.Ir.{ValueRef, Instr, BasicBlock}
use neo_lang.Ir.Rewrite.{lookup_ref}
use neo_lang.Ir.Passes.{copies, copy_prop_block}
use neo_lang.Ir.Replaced.{IsFromCopies, rewrite_block-same}
use neo_lang.Ir.Meaning.{Env, Machine, run_block}
use neo_lang.Ir.Ssa.{defined, IsSsa, defined_head, defined_tail, defined-cons}

-- The entry that an instruction adds.
entry : ℕ → Instr → List (ℕ × ValueRef) → List (ℕ × ValueRef)
entry out (Instr.copy v) table = (out, v) ∷ table
entry out _ table = table

copies-cons :
    (table : List (ℕ × ValueRef)) (out : ℕ) (instr : Instr) (rest : List (ℕ × Instr))
    → copies table ((out, instr) ∷ rest) ≡ copies (entry out instr table) rest
unfolding copies entry
copies-cons table out (Instr.copy v) rest = refl
copies-cons table out _ rest = refl

lookup_ref-entry_other :
    (table : List (ℕ × ValueRef)) (out id : ℕ) (instr : Instr)
    → (out == id) ≡ false
    → lookup_ref (entry out instr table) id ≡ lookup_ref table id
unfolding lookup_ref entry
lookup_ref-entry_other table out id (Instr.copy v) e = rw e refl
lookup_ref-entry_other table out id _ e = refl

lookup_ref-copies_other :
    (table : List (ℕ × ValueRef)) (id : ℕ) (instrs : List (ℕ × Instr))
    → defined instrs id ≡ false
    → lookup_ref (copies table instrs) id ≡ lookup_ref table id
lookup_ref-copies_other table id [] h = unfold copies in refl
lookup_ref-copies_other table id ((out, instr) ∷ rest) h =
    let (other, h') = defined-cons out instr rest id h in
    rw (copies-cons table out instr rest) (
      lookup_ref-copies_other (entry out instr table) id rest h'
      ∙ lookup_ref-entry_other table out id instr other)

-- Every key of the table was there or is defined by the instructions.
defined-copies :
    (table : List (ℕ × ValueRef)) (id : ℕ) (v : ValueRef) (instrs : List (ℕ × Instr))
    → lookup_ref table id ≡ none
    → lookup_ref (copies table instrs) id ≡ some v
    → defined instrs id ≡ true
defined-copies table id v instrs free e = elim (Bool-cases (defined instrs id)) [
  | inl d ↦ d
  | inr d ↦ let same = lookup_ref-copies_other table id instrs d in absurd (cc)
]

entry_source :
    (table : List (ℕ × ValueRef)) (out : ℕ) (instr : Instr) (v : ValueRef)
    → lookup_ref table out ≡ none
    → lookup_ref (entry out instr table) out ≡ some v
    → instr ≡ Instr.copy v
unfolding lookup_ref entry
entry_source table out (Instr.copy w) v free e =
    let e' = rw (eqb_refl out) at e in ap Instr.copy (some-injective w v e')
entry_source table out _ v free e = absurd (cc)

copies-IsFromCopies :
    (table : List (ℕ × ValueRef)) (instrs : List (ℕ × Instr))
    → IsSsa instrs
    → ((id : ℕ) → defined instrs id ≡ true → lookup_ref table id ≡ none)
    → IsFromCopies (copies table instrs) instrs
copies-IsFromCopies table [] ssa free = tt
copies-IsFromCopies table ((out, instr) ∷ rest) (fresh, _, ssa) free =
    subst (λ (t : List (ℕ × ValueRef)). IsFromCopies t ((out, instr) ∷ rest))
      (sym (copies-cons table out instr rest))
      (
        λ v e.
            entry_source table out instr v (free out (defined_head out instr rest))
              (sym (lookup_ref-copies_other (entry out instr table) out rest fresh) ∙ e),
        copies-IsFromCopies (entry out instr table) rest ssa (λ id d.
            elim (Bool-cases (out == id)) [
              | inl same ↦ let fresh' = rw (eqb→eq out id same) at fresh in absurd (cc)
              | inr other ↦
                  lookup_ref-entry_other table out id instr other
                  ∙ free id (defined_tail out instr rest id d)
            ]),
      )

module _ {V S : Type 0} (perform : Machine V S) where
  -- Copy propagation keeps what a block does, its faults included, from every environment and
  -- state, where each value is defined once, before its uses.
  pub copy_prop_block_same :
      (bb : BasicBlock) (env : Env V) (s : S)
      → IsSsa bb.instrs
      → run_block perform (copy_prop_block bb) env s ≡ run_block perform bb env s
  unfolding copy_prop_block
  copy_prop_block_same bb env s ssa =
      let nothing : (id : ℕ) → lookup_ref [] id ≡ none = λ id. unfold lookup_ref in refl in
      rewrite_block-same perform (copies [] bb.instrs) bb env s ssa
        (copies-IsFromCopies [] bb.instrs ssa (λ id _. nothing id))
        (λ id v e. inl (defined-copies [] id v bb.instrs (nothing id) e))
