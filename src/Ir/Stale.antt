-- ===== src/Ir/Stale.antt =====
-- The elimination of common subexpressions reads across changes of a collection.
use neo_lang.Prelude.{eqb_refl, ℕ, ◌≡◌, refl, [], ◌∷◌, Option, some, ◌>>=?◌}
use neo_lang.Ir.{value, param, Instr, BasicBlock, Terminator, has_side_effects}
use neo_lang.Ir.Rewrite.{
  lookup_ref, unwrap_or, rewrite, map_refs, rewrite_value_refs_in_instr, rewrite_value_refs_in_term,
  map_term, map_option_ref,
}
use neo_lang.Ir.Uses.{operands, term_refs, option_refs}
use neo_lang.Ir.Passes.{rewrite_block, rewrite_instrs}
use neo_lang.Ir.Keys.{same_ref, same_key, pure_key}
use neo_lang.Ir.Cse.{find_key, number_found, number_keyed, number_instr, number_instrs, cse_block}
use neo_lang.Ir.Meaning.{Env, Machine, Exit, bind, shape, act, exec, run, exit, run_block}

-- `let n = xs.size(); xs.push(x); return xs.size();` with the parameters `p` and `q`.
abbrev pub sizes : ℕ → ℕ → BasicBlock
sizes p q = record {
  params = [];
  instrs =
      (0, Instr.size (param p))
      ∷ (1, Instr.array_append (param p) (param q))
      ∷ (2, Instr.size (param p))
      ∷ [];
  term = Terminator.return_ (some (value 2));
}

-- What is returned.
abbrev pub exit_of : {V S : Type 0} → Machine V S → BasicBlock → Env V → S → Option (Exit V)
exit_of perform bb env s = run_block perform bb env s >>=? λ (x, _). some x

abbrev sizes_once : ℕ → ℕ → BasicBlock
sizes_once p q = record {
  params = [];
  instrs =
      (0, Instr.size (param p))
      ∷ (1, Instr.array_append (param p) (param q))
      ∷ (2, Instr.copy (value 0))
      ∷ [];
  term = Terminator.return_ (some (value 0));
}

cse_block-sizes : (p q : ℕ) → cse_block (sizes p q) ≡ sizes_once p q
unfolding cse_block number_instrs number_instr number_keyed number_found find_key pure_key same_key
    same_ref map_refs rewrite has_side_effects rewrite_block rewrite_instrs
    rewrite_value_refs_in_instr rewrite_value_refs_in_term map_term map_option_ref lookup_ref
    unwrap_or
cse_block-sizes p q = rw (eqb_refl p) refl

module _ {V S : Type 0} (perform : Machine V S) (p q : ℕ) (env : Env V) (s s' : S) (n m w : V)
    (small : perform (Instr.size (param 0)) (env (param p) ∷ []) s ≡ some (n, s))
    (grown : perform (Instr.array_append (param 0) (param 0)) (env (param p) ∷ env (param q) ∷ []) s
      ≡ some (w, s'))
    (large : perform (Instr.size (param 0)) (env (param p) ∷ []) s' ≡ some (m, s')) where
  -- A block that takes the size of a collection, appends to it and returns the size taken again
  -- returns the new size; behind the elimination it returns the old one.
  pub cse_block-stale :
      (exit_of perform (sizes p q) env s ≡ some (Terminator.return_ (some (param 0)), m ∷ []))
      × (exit_of perform (cse_block (sizes p q)) env s
          ≡ some (Terminator.return_ (some (param 0)), n ∷ []))
  unfolding run_block run exec act shape map_refs operands exit map_term map_option_ref term_refs
      option_refs bind
  cse_block-stale =
      (rw small (rw grown (rw large refl)), rw (cse_block-sizes p q) (rw small (rw grown refl)))
