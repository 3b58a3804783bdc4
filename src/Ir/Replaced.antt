-- ===== src/Ir/Replaced.antt =====
-- Rewriting a block by a table whose entries are copies of the block keeps what it does.
use neo_lang.Prelude.{
  ℕ, ◌≡◌, refl, sym, subst, ◌∙◌, ◌⊎◌, inl, inr, true, some, List, [], ◌∷◌, ◌==◌, All, Bool-cases,
  Option-cases, eqb→eq,
}
use neo_lang.Ir.{ValueRef, value, param, Instr, BasicBlock}
use neo_lang.Ir.Uses.{operands, term_refs}
use neo_lang.Ir.Rewrite.{
  lookup_ref, unwrap_or, rewrite, map_refs, rewrite_value_refs_in_instr, rewrite_value_refs_in_term,
}
use neo_lang.Ir.Passes.{rewrite_instrs, rewrite_block}
use neo_lang.Ir.Meaning.{
  Env, Machine, bind, shape, act, exec, run, run_block, exec-map_refs, exec-agree, exit-agree,
  exit-map_term,
}
use neo_lang.Ir.Ssa.{
  defined, Untouched, IsSsa, defined-cons_other, Untouched-cons, bind-Untouched, Untouched-nil,
}

-- An entry whose value is already defined has the value of its replacement, for good.
abbrev pub IsCurrent : {V : Type 0} → List (ℕ × ValueRef) → Env V → List (ℕ × Instr) → Type 0
IsCurrent table env rest =
    (id : ℕ) (v : ValueRef)
    → lookup_ref table id ≡ some v
    → (defined rest id ≡ true) ⊎ ((env (value id) ≡ env v) × Untouched rest v)

-- An entry for a value that is yet to come is the value's copy.
abbrev pub IsFromCopies : List (ℕ × ValueRef) → List (ℕ × Instr) → Type 0
IsFromCopies table [] = Unit
IsFromCopies table ((out, instr) ∷ rest) =
    ((v : ValueRef) → lookup_ref table out ≡ some v → instr ≡ Instr.copy v)
    × IsFromCopies table rest

pub rewrite_same :
    {V : Type 0} (table : List (ℕ × ValueRef)) (env : Env V) (rest : List (ℕ × Instr))
    (r : ValueRef)
    → IsCurrent table env rest
    → Untouched rest r
    → env (rewrite table r) ≡ env r
unfolding rewrite unwrap_or
rewrite_same table env rest (param id) current free = refl
rewrite_same table env rest (value id) current free = elim (Option-cases (lookup_ref table id)) [
  | inl e ↦ rw e refl
  | inr (v, e) ↦ rw e (elim (current id v e) [ inl d ↦ absurd (cc) | inr (same, _) ↦ sym same ])
]

rewrite_same-All :
    {V : Type 0} (table : List (ℕ × ValueRef)) (env : Env V) (rest : List (ℕ × Instr))
    (refs : List ValueRef)
    → IsCurrent table env rest
    → All (Untouched rest) refs
    → All (λ r. env (rewrite table r) ≡ env r) refs
rewrite_same-All table env rest [] current free = tt
rewrite_same-All table env rest (r ∷ refs) current (h, hs) =
    (rewrite_same table env rest r current h, rewrite_same-All table env rest refs current hs)

Untouched-nil-All : (refs : List ValueRef) → All (Untouched []) refs
Untouched-nil-All [] = tt
Untouched-nil-All (r ∷ refs) = (Untouched-nil r, Untouched-nil-All refs)

copy_free :
    (instr : Instr) (w : ValueRef) (block : List (ℕ × Instr))
    → instr ≡ Instr.copy w
    → All (Untouched block) (operands instr)
    → Untouched block w
unfolding operands
copy_free instr w block e free =
    let free' = subst (λ (i : Instr). All (Untouched block) (operands i)) e free in free'.0

module _ {V S : Type 0} (perform : Machine V S) where
  copy_value :
      (instr : Instr) (w : ValueRef) (env : Env V) (s s' : S) (v : V)
      → instr ≡ Instr.copy w
      → exec perform instr env s ≡ some (v, s')
      → v ≡ env w
  unfolding exec act shape map_refs operands
  copy_value instr w env s s' v e done =
      let done' = subst (λ (i : Instr). exec perform i env s ≡ some (v, s')) e done in cc

  module _ (table : List (ℕ × ValueRef)) where
    IsCurrent-bind :
        (out : ℕ) (instr : Instr) (rest : List (ℕ × Instr)) (env : Env V) (s s' : S) (v : V)
        → IsCurrent table env ((out, instr) ∷ rest)
        → ((w : ValueRef) → lookup_ref table out ≡ some w → instr ≡ Instr.copy w)
        → All (Untouched ((out, instr) ∷ rest)) (operands instr)
        → exec perform instr env s ≡ some (v, s')
        → IsCurrent table (bind out v env) rest
    unfolding bind
    IsCurrent-bind out instr rest env s s' v current source free done id w e =
        elim (Bool-cases (out == id)) [
          | inl same ↦
              let at = rw (← eqb→eq out id same) at e in
              let is_copy = source w at in
              let u = copy_free instr w ((out, instr) ∷ rest) is_copy free in
              let moved = bind-Untouched out instr rest v env w u in
              let value_of = copy_value instr w env s s' v is_copy done in
              inr (rw (same, moved) value_of, Untouched-cons out instr rest w u)
          | inr other ↦ elim (current id w e) [
            | inl d ↦ inl (defined-cons_other out instr rest id other d)
            | inr (eq, u) ↦
                let moved = bind-Untouched out instr rest v env w u in
                inr (rw (other, moved) eq, Untouched-cons out instr rest w u)
          ]
        ]

    -- The rewritten instructions do the same, and behind them the table is current.
    run-rewrite_instrs :
        (instrs : List (ℕ × Instr)) (env : Env V) (s : S)
        → IsSsa instrs
        → IsFromCopies table instrs
        → IsCurrent table env instrs
        → (run perform (rewrite_instrs table instrs) env s ≡ run perform instrs env s)
          × ((env' : Env V) (s' : S)
              → run perform instrs env s ≡ some (env', s')
              → IsCurrent table env' [])
    unfolding run rewrite_instrs rewrite_value_refs_in_instr
    run-rewrite_instrs [] env s ssa from current =
        (refl, λ env' s' e. subst (λ (f : Env V). IsCurrent table f []) (cc) current)
    run-rewrite_instrs ((out, instr) ∷ rest) env s (fresh, free, ssa) (source, from) current =
        let agree =
          exec-agree perform instr (λ r. env (rewrite table r)) env s
            (rewrite_same-All table env ((out, instr) ∷ rest) (operands instr) current free) in
        let head = exec-map_refs (rewrite table) perform instr env s ∙ agree in
        elim (Option-cases (exec perform instr env s)) [
          | inl e ↦ (rw (head, e) refl, λ env' s' h. let h' = rw e at h in absurd (cc))
          | inr ((v, s'), e) ↦
              let next = IsCurrent-bind out instr rest env s s' v current source free e in
              let (ih, after) = run-rewrite_instrs rest (bind out v env) s' ssa from next in
              (rw (head, e) ih, λ env'' s'' h. after env'' s'' (rw e at h))
        ]

module _ {V S : Type 0} (perform : Machine V S) where
  pub rewrite_block-same :
      (table : List (ℕ × ValueRef)) (bb : BasicBlock) (env : Env V) (s : S)
      → IsSsa bb.instrs
      → IsFromCopies table bb.instrs
      → IsCurrent table env bb.instrs
      → run_block perform (rewrite_block table bb) env s ≡ run_block perform bb env s
  unfolding run_block rewrite_block rewrite_value_refs_in_term
  rewrite_block-same [] bb env s ssa from current = refl
  rewrite_block-same (e ∷ table) bb env s ssa from current =
      let (same, after) = run-rewrite_instrs perform (e ∷ table) bb.instrs env s ssa from current in
      elim (Option-cases (run perform bb.instrs env s)) [
        | inl stuck ↦ rw (same, stuck) refl
        | inr ((env', s'), done) ↦
            let refs = term_refs bb.term in
            let agree =
              rewrite_same-All (e ∷ table) env' [] refs (after env' s' done)
                (Untouched-nil-All refs) in
            let left =
              exit-map_term (rewrite (e ∷ table)) bb.term env'
              ∙ exit-agree bb.term (λ r. env' (rewrite (e ∷ table) r)) env' agree in
            rw (same, done) (rw left refl)
      ]
