-- ===== src/Ir/DeadBlocks.antt =====
-- The elimination of dead code ends, and what it leaves of a function does the same.
use neo_lang.Prelude.{
  ℕ, ◌≡◌, refl, sym, ap, subst, ◌∙◌, inl, inr, Bool, true, false, some, List, [], ◌∷◌, ◌==◌, ◌||◌,
  All, Bool-cases, Option-cases, eqb→eq,
}
use mathlib.Core.Option.{some-injective}
use neo_lang.Ir.{ValueRef, value, param, Instr, must_keep_even_if_unused}
use neo_lang.Ir.Uses.{operands, value_ids, collect_uses_in_instr}
use neo_lang.Ir.Rewrite.{map_refs}
use neo_lang.Ir.Passes.{contains, def_of, uses_of, retain}
use neo_lang.Ir.Meaning.{Env, Machine, bind, shape, act, exec, run, exec-agree}
use neo_lang.Ir.DeadCode.{IsMarked, IsClosed, Covers, contains-cons_self, contains-cons_keeps}

-- What need not be kept leaves the state as it is.
abbrev pub IsQuiet : {V S : Type 0} → Machine V S → Type 0
IsQuiet {V} {S} perform =
    (instr : Instr) (vs : List V) (s s' : S) (v : V)
    → must_keep_even_if_unused instr ≡ false
    → perform instr vs s ≡ some (v, s')
    → s' ≡ s

-- The environments have the same values where it counts.
abbrev pub Agrees : {V : Type 0} → List ℕ → Env V → Env V → Type 0
Agrees marked env env' =
    ((id : ℕ) → IsMarked marked id → env (value id) ≡ env' (value id))
    × ((k : ℕ) → env (param k) ≡ env' (param k))

must_keep-shape :
    (instr : Instr) → must_keep_even_if_unused (shape instr) ≡ must_keep_even_if_unused instr
unfolding must_keep_even_if_unused shape map_refs
must_keep-shape (Instr.const x) = refl
must_keep-shape _ = refl

pub Agrees-refs :
    {V : Type 0} (marked : List ℕ) (env env' : Env V) (refs : List ValueRef)
    → Agrees marked env env'
    → Covers marked (value_ids refs)
    → All (λ r. env r ≡ env' r) refs
unfolding value_ids
Agrees-refs marked env env' [] agrees covers = tt
Agrees-refs marked env env' (value id ∷ refs) agrees covers =
    let here = covers id (contains-cons_self (value_ids refs) id) in
    let there = λ (x : ℕ) (h : IsMarked (value_ids refs) x).
      covers x (contains-cons_keeps (value_ids refs) id x h) in
    (agrees.0 id here, Agrees-refs marked env env' refs agrees there)
Agrees-refs marked env env' (param id ∷ refs) agrees covers =
    (agrees.1 id, Agrees-refs marked env env' refs agrees covers)

-- Each definition that the map holds is the value's, and what must be kept has its uses marked.
abbrev pub IsKept : List (ℕ × Instr) → List ℕ → List (ℕ × Instr) → Type 0
IsKept defs marked [] = Unit
IsKept defs marked ((out, instr) ∷ rest) =
    (def_of defs out ≡ some instr)
    × (must_keep_even_if_unused instr ≡ true → Covers marked (collect_uses_in_instr instr))
    × IsKept defs marked rest

module _ (defs : List (ℕ × Instr)) (marked : List ℕ) (closed : IsClosed defs marked) where
  Covers-marked :
      (out : ℕ) (instr : Instr)
      → def_of defs out ≡ some instr
      → IsMarked marked out
      → Covers marked (collect_uses_in_instr instr)
  unfolding uses_of
  Covers-marked out instr def m x h = closed out x m (rw def h)

  keep-Covers :
      (out : ℕ) (instr : Instr)
      → def_of defs out ≡ some instr
      → (must_keep_even_if_unused instr ≡ true → Covers marked (collect_uses_in_instr instr))
      → (must_keep_even_if_unused instr || contains marked out) ≡ true
      → Covers marked (collect_uses_in_instr instr)
  keep-Covers out instr def root keep = elim (Bool-cases (must_keep_even_if_unused instr)) [
    | inl e ↦ root e
    | inr e ↦ Covers-marked out instr def (rw e at keep)
  ]

or-eq-false : (a b : Bool) → (a || b) ≡ false → (a ≡ false) × (b ≡ false)
or-eq-false true b h = absurd (cc)
or-eq-false false b h = (refl, h)

module _ {V : Type 0} (marked : List ℕ) where
  Agrees-bind :
      (out : ℕ) (v : V) (env env' : Env V)
      → Agrees marked env env'
      → Agrees marked (bind out v env) (bind out v env')
  unfolding bind
  Agrees-bind out v env env' (values, params) = (
    λ id m. elim (Bool-cases (out == id)) [ inl e ↦ rw e refl | inr e ↦ rw e (values id m) ],
    params,
  )

  Agrees-dropped :
      (out : ℕ) (v : V) (env env' : Env V)
      → contains marked out ≡ false
      → Agrees marked env env'
      → Agrees marked (bind out v env) env'
  unfolding bind
  Agrees-dropped out v env env' dropped (values, params) = (
    λ id m. elim (Bool-cases (out == id)) [
      | inl e ↦ let m' = rw (← eqb→eq out id e) at m in absurd (cc)
      | inr e ↦ rw e (values id m)
    ],
    params,
  )

module _ {V S : Type 0} (perform : Machine V S) (quiet : IsQuiet perform) where
  act-quiet :
      (instr : Instr) (vs : List V) (s s' : S) (v : V)
      → must_keep_even_if_unused instr ≡ false
      → act perform instr vs s ≡ some (v, s')
      → s' ≡ s
  unfolding act
  act-quiet (Instr.copy r) [] s s' v h e = quiet (Instr.copy r) [] s s' v h e
  act-quiet (Instr.copy r) (w ∷ []) s s' v h e = cc
  act-quiet (Instr.copy r) (w ∷ u ∷ vs) s s' v h e = quiet (Instr.copy r) (w ∷ u ∷ vs) s s' v h e
  act-quiet instr vs s s' v h e = quiet instr vs s s' v h e

  exec-quiet :
      (instr : Instr) (env : Env V) (s s' : S) (v : V)
      → must_keep_even_if_unused instr ≡ false
      → exec perform instr env s ≡ some (v, s')
      → s' ≡ s
  unfolding exec
  exec-quiet instr env s s' v h e = act-quiet (shape instr) _ s s' v (must_keep-shape instr ∙ h) e

  module _ (defs : List (ℕ × Instr)) (marked : List ℕ) (closed : IsClosed defs marked) where
    pub run-retain :
        (instrs : List (ℕ × Instr)) (env env' end : Env V) (s s' : S)
        → IsKept defs marked instrs
        → Agrees marked env env'
        → run perform instrs env s ≡ some (end, s')
        → (end' : Env V) × (run perform (retain marked instrs) env' s ≡ some (end', s'))
          × Agrees marked end end'
    unfolding run retain collect_uses_in_instr
    run-retain [] env env' end s s' kept agrees h =
        let done = some-injective (env, s) (end, s') h in
        (
          env',
          ap (λ (t : S). some (env', t)) (ap (λ (q : Env V × S). q.1) done),
          subst (λ (f : Env V). Agrees marked f env') (ap (λ (q : Env V × S). q.0) done) agrees,
        )
    run-retain ((out, instr) ∷ rest) env env' end s s' (def, root, kept) agrees h =
        elim (Option-cases (exec perform instr env s)) [
          | inl e ↦ let h' = rw e at h in absurd (cc)
          | inr ((v, t), e) ↦
              let h' = rw e at h in
              elim (Bool-cases (must_keep_even_if_unused instr || contains marked out)) [
                | inl keep ↦
                    let cover = keep-Covers defs marked closed out instr def root keep in
                    let agree =
                      exec-agree perform instr env env' s
                        (Agrees-refs marked env env' (operands instr) agrees cover) in
                    let (end', same, agrees') =
                      run-retain rest (bind out v env) (bind out v env') end t s' kept
                        (Agrees-bind marked out v env env' agrees) h' in
                    (end', rw keep (rw (sym agree ∙ e) same), agrees')
                | inr drop ↦
                    let (optional, unmarked) = or-eq-false _ _ drop in
                    let same_state = exec-quiet instr env s t v optional e in
                    let (end', same, agrees') =
                      run-retain rest (bind out v env) env' end t s' kept
                        (Agrees-dropped marked out v env env' unmarked agrees) h' in
                    (end', rw drop (rw same_state at same), agrees')
              ]
        ]
