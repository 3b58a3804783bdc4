-- ===== src/Ir/Meaning.antt =====
-- A meaning for basic blocks, against which the passes of the optimizer are stated. What the
-- machine does with the operands' values of an instruction other than a copy is a parameter,
-- `perform`: it sees the instruction without its references, and the state, and may fault.
use neo_lang.Prelude.{
  All, sym, ℕ, ◌≡◌, refl, ap, Option, none, some, List, [], ◌∷◌, ◌++◌, ◌==◌, ◌>>=?◌, map,
  if◌then◌else◌,
}
use neo_lang.Ir.{ValueRef, value, param, Instr, Terminator, BasicBlock}
use neo_lang.Ir.Uses.{operands, pair_refs, option_refs, term_refs}
use neo_lang.Ir.Rewrite.{map_refs, map_pairs, map_option_ref, map_term}

-- The values of the parameters of the block and of the instructions so far.
abbrev pub Env : Type 0 → Type 0
Env V = ValueRef → V

unfoldable pub bind : {V : Type 0} → ℕ → V → Env V → Env V
bind out v env (value id) = if out == id then v else env (value id)
bind out v env (param id) = env (param id)

-- The instruction without its references.
unfoldable pub shape : Instr → Instr
shape instr = map_refs (λ _. param 0) instr

abbrev pub Machine : Type 0 → Type 0 → Type 0
Machine V S = Instr → List V → S → Option (V × S)

module _ {V S : Type 0} (perform : Machine V S) where
  -- A copy gives its operand's value; the rest is the machine's.
  unfoldable pub act : Instr → List V → S → Option (V × S)
  act (Instr.copy _) (v ∷ []) s = some (v, s)
  act instr vs s = perform instr vs s

  unfoldable pub exec : Instr → Env V → S → Option (V × S)
  exec instr env s = act (shape instr) (map env (operands instr)) s

  unfoldable pub run : List (ℕ × Instr) → Env V → S → Option (Env V × S)
  run [] env s = some (env, s)
  run ((out, instr) ∷ rest) env s = exec instr env s >>=? λ (v, s'). run rest (bind out v env) s'

-- How a block ends: the terminator's shape with the values of its references.
abbrev pub Exit : Type 0 → Type 0
Exit V = Terminator × List V

unfoldable pub exit : {V : Type 0} → Terminator → Env V → Exit V
exit term env = (map_term (λ _. param 0) term, map env (term_refs term))

module _ {V S : Type 0} (perform : Machine V S) where
  -- What a block does: its exit, the values behind it, and the state.
  unfoldable pub run_block : BasicBlock → Env V → S → Option (Exit V × (Env V × S))
  unfolding run
  run_block bb env s =
      run perform bb.instrs env s >>=? λ (env', s'). some (exit bb.term env', (env', s'))

module _ (f : ValueRef → ValueRef) where
  map-map_refs :
      {V : Type 0} (env : Env V) (refs : List ValueRef)
      → map env (map f refs) ≡ map (λ r. env (f r)) refs
  map-map_refs env [] = refl
  map-map_refs env (r ∷ refs) = ap (◌∷◌ (env (f r))) (map-map_refs env refs)

  blank_map : (refs : List ValueRef) → map (λ _. param 0) (map f refs) ≡ map (λ _. param 0) refs
  blank_map [] = refl
  blank_map (r ∷ refs) = ap (◌∷◌ (param 0)) (blank_map refs)

  blank_pairs :
      (pairs : List (ValueRef × ValueRef))
      → map_pairs (λ _. param 0) (map_pairs f pairs) ≡ map_pairs (λ _. param 0) pairs
  unfolding map_pairs
  blank_pairs [] = refl
  blank_pairs ((k, v) ∷ pairs) = ap (◌∷◌ (param 0, param 0)) (blank_pairs pairs)

  pair_refs-map_pairs :
      (pairs : List (ValueRef × ValueRef)) → pair_refs (map_pairs f pairs) ≡ map f (pair_refs pairs)
  unfolding map_pairs pair_refs
  pair_refs-map_pairs [] = refl
  pair_refs-map_pairs ((k, v) ∷ pairs) =
      ap (λ (t : List ValueRef). f k ∷ f v ∷ t) (pair_refs-map_pairs pairs)

  shape-map_refs : (instr : Instr) → shape (map_refs f instr) ≡ shape instr
  unfolding shape map_refs
  shape-map_refs (Instr.builtin_call x args) = ap (Instr.builtin_call x) (blank_map args)
  shape-map_refs (Instr.emit x args) = ap (Instr.emit x) (blank_map args)
  shape-map_refs (Instr.package_call x args) = ap (Instr.package_call x) (blank_map args)
  shape-map_refs (Instr.contract_method_call x y args) =
      ap (Instr.contract_method_call x y) (blank_map args)
  shape-map_refs (Instr.struct_pack x args) = ap (Instr.struct_pack x) (blank_map args)
  shape-map_refs (Instr.struct_call x y r args) =
      ap (Instr.struct_call x y (param 0)) (blank_map args)
  shape-map_refs (Instr.runtime_call x args) = ap (Instr.runtime_call x) (blank_map args)
  shape-map_refs (Instr.extern_call x y args) = ap (Instr.extern_call x y) (blank_map args)
  shape-map_refs (Instr.array_pack args) = ap Instr.array_pack (blank_map args)
  shape-map_refs (Instr.map_pack pairs) = ap Instr.map_pack (blank_pairs pairs)
  shape-map_refs _ = refl

  operands-map_refs : (instr : Instr) → operands (map_refs f instr) ≡ map f (operands instr)
  unfolding operands map_refs
  operands-map_refs (Instr.map_pack pairs) = pair_refs-map_pairs pairs
  operands-map_refs _ = refl

  -- An instruction with replaced references does what the instruction does where the references
  -- have the values of the replacements.
  pub exec-map_refs :
      {V S : Type 0} (perform : Machine V S) (instr : Instr) (env : Env V) (s : S)
      → exec perform (map_refs f instr) env s ≡ exec perform instr (λ r. env (f r)) s
  unfolding exec
  exec-map_refs perform instr env s =
      rw (shape-map_refs instr, operands-map_refs instr, map-map_refs env (operands instr)) refl

  map-append_refs : (xs ys : List ValueRef) → map f (xs ++ ys) ≡ map f xs ++ map f ys
  map-append_refs [] ys = refl
  map-append_refs (x ∷ xs) ys = ap (◌∷◌ (f x)) (map-append_refs xs ys)

  term_refs-map_term : (term : Terminator) → term_refs (map_term f term) ≡ map f (term_refs term)
  unfolding term_refs map_term option_refs map_option_ref
  term_refs-map_term Terminator.unset = refl
  term_refs-map_term (Terminator.return_ none) = refl
  term_refs-map_term (Terminator.return_ (some v)) = refl
  term_refs-map_term (Terminator.jump target args) = refl
  term_refs-map_term (Terminator.branch cond then_bb then_args else_bb else_args) =
      ap (◌∷◌ (f cond)) (sym (map-append_refs then_args else_args))

  shape-map_term :
      (term : Terminator) → map_term (λ _. param 0) (map_term f term) ≡ map_term (λ _. param 0) term
  unfolding map_term map_option_ref
  shape-map_term Terminator.unset = refl
  shape-map_term (Terminator.return_ none) = refl
  shape-map_term (Terminator.return_ (some v)) = refl
  shape-map_term (Terminator.jump target args) = ap (Terminator.jump target) (blank_map args)
  shape-map_term (Terminator.branch cond then_bb then_args else_bb else_args) =
      rw (blank_map then_args, blank_map else_args) refl

  pub exit-map_term :
      {V : Type 0} (term : Terminator) (env : Env V)
      → exit (map_term f term) env ≡ exit term (λ r. env (f r))
  unfolding exit
  exit-map_term term env =
      rw (shape-map_term term, term_refs-map_term term, map-map_refs env (term_refs term)) refl

-- References with the same values give an instruction the same effect.
pub map-agree :
    {V : Type 0} (env env' : Env V) (refs : List ValueRef)
    → All (λ r. env r ≡ env' r) refs
    → map env refs ≡ map env' refs
map-agree env env' [] h = refl
map-agree env env' (r ∷ refs) (h, hs) = let rest = map-agree env env' refs hs in rw (h, rest) refl

pub exec-agree :
    {V S : Type 0} (perform : Machine V S) (instr : Instr) (env env' : Env V) (s : S)
    → All (λ r. env r ≡ env' r) (operands instr)
    → exec perform instr env s ≡ exec perform instr env' s
unfolding exec
exec-agree perform instr env env' s h = rw (map-agree env env' (operands instr) h) refl

pub exit-agree :
    {V : Type 0} (term : Terminator) (env env' : Env V)
    → All (λ r. env r ≡ env' r) (term_refs term)
    → exit term env ≡ exit term env'
unfolding exit
exit-agree term env env' h = rw (map-agree env env' (term_refs term) h) refl
