-- ===== src/Ir/Ssa.antt =====
-- The form of a block that the theorem on copies asks for: each value is defined once,
-- before its uses.
use neo_lang.Prelude.{
  ℕ, ◌≡◌, refl, Bool, true, false, List, [], ◌∷◌, ◌==◌, ◌||◌, All, Bool-cases, inl, inr, eqb_refl,
}
use neo_lang.Ir.{ValueRef, value, param, Instr}
use neo_lang.Ir.Uses.{operands}
use neo_lang.Ir.Meaning.{Env, bind}

unfoldable pub defined : List (ℕ × Instr) → ℕ → Bool
defined [] id = false
defined ((out, instr) ∷ rest) id = (out == id) || defined rest id

-- The instructions do not define the value.
abbrev pub Untouched : List (ℕ × Instr) → ValueRef → Type 0
Untouched rest (value id) = defined rest id ≡ false
Untouched rest (param id) = Unit

abbrev pub IsSsa : List (ℕ × Instr) → Type 0
IsSsa [] = Unit
IsSsa ((out, instr) ∷ rest) =
    (defined rest out ≡ false) × All (Untouched ((out, instr) ∷ rest)) (operands instr) × IsSsa rest

module _ (out : ℕ) (instr : Instr) (rest : List (ℕ × Instr)) where
  pub defined-cons :
      (id : ℕ)
      → defined ((out, instr) ∷ rest) id ≡ false
      → ((out == id) ≡ false) × (defined rest id ≡ false)
  unfolding defined
  defined-cons id h = elim (Bool-cases (out == id)) [
    | inl e ↦ let h' = rw e at h in absurd (cc)
    | inr e ↦ (e, rw e at h)
  ]

  pub defined-cons_other :
      (id : ℕ)
      → (out == id) ≡ false
      → defined ((out, instr) ∷ rest) id ≡ true
      → defined rest id ≡ true
  unfolding defined
  defined-cons_other id e h = rw e at h

  pub defined_head : defined ((out, instr) ∷ rest) out ≡ true
  unfolding defined
  defined_head = rw (eqb_refl out) refl

  pub defined_tail : (id : ℕ) → defined rest id ≡ true → defined ((out, instr) ∷ rest) id ≡ true
  unfolding defined
  defined_tail id h = elim (Bool-cases (out == id)) [ inl e ↦ rw e refl | inr e ↦ rw e h ]

  pub Untouched-cons : (r : ValueRef) → Untouched ((out, instr) ∷ rest) r → Untouched rest r
  Untouched-cons (value id) h = (defined-cons id h).1
  Untouched-cons (param id) h = tt

  pub bind-Untouched :
      {V : Type 0} (v : V) (env : Env V) (r : ValueRef)
      → Untouched ((out, instr) ∷ rest) r
      → bind out v env r ≡ env r
  unfolding bind
  bind-Untouched v env (value id) h = rw (defined-cons id h).0 refl
  bind-Untouched v env (param id) h = refl

pub Untouched-nil : (r : ValueRef) → Untouched [] r
unfolding defined
Untouched-nil (value id) = refl
Untouched-nil (param id) = tt
