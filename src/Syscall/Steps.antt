-- ===== src/Syscall/Steps.antt =====
-- What the steps of a binding leave on the stack of the machine for the system call.
use neo_lang.Prelude.{
  append_assoc, append-nil, ℕ, zero, suc, ◌≤◌, ◌≡◌, refl, ap, ◌∙◌, Option, none, some, List, [],
  ◌∷◌, ◌++◌, length, take, get_elem?, ◌>>=?◌, arith,
}
use neo_lang.Syscall.{Syscall, RuntimeEmitStep, RuntimeBinding, reversed_args, steps_of, emit_steps}

module _ {V : Type 0} (int : ℕ → V) (args : List V) where
  -- The stack, its top in front, and the call that the steps end with; `none` is a missing argument,
  -- no call, or a step behind the call.
  unfoldable pub run_steps : List V → List RuntimeEmitStep → Option (List V × Syscall)
  run_steps stack [] = none
  run_steps stack (RuntimeEmitStep.source_arg index ∷ steps) =
      get_elem? args index >>=? λ v. run_steps (v ∷ stack) steps
  run_steps stack (RuntimeEmitStep.injected_int n ∷ steps) = run_steps (int n ∷ stack) steps
  run_steps stack (RuntimeEmitStep.syscall s ∷ []) = some (stack, s)
  run_steps stack (RuntimeEmitStep.syscall s ∷ step ∷ steps) = none

get_elem?_below :
    {V : Type 0} (args : List V) (k : ℕ)
    → suc k ≤ length args
    → (v : V) × (get_elem? args k ≡ some v) × (take (suc k) args ≡ take k args ++ (v ∷ []))
get_elem?_below [] k h = absurd (omega arith)
get_elem?_below (a ∷ args) zero h = (a, refl, refl)
get_elem?_below (a ∷ args) (suc k) h =
    let (v, found, same) = get_elem?_below args k (omega arith) in
    (v, found, ap (λ (l : List _). a ∷ l) same)

take_all : {V : Type 0} (args : List V) (k : ℕ) → k ≡ length args → take k args ≡ args
take_all [] zero h = refl
take_all [] (suc k) h = absurd (omega arith)
take_all (a ∷ args) zero h = absurd (omega arith)
take_all (a ∷ args) (suc k) h = ap (λ (l : List _). a ∷ l) (take_all args k (omega arith))

module _ {V : Type 0} (int : ℕ → V) (args : List V) where
  run_steps-reversed_args :
      (k : ℕ) (stack : List V) (steps : List RuntimeEmitStep)
      → k ≤ length args
      → run_steps int args stack (reversed_args k ++ steps)
        ≡ run_steps int args (take k args ++ stack) steps
  unfolding run_steps reversed_args
  run_steps-reversed_args zero stack steps h = refl
  run_steps-reversed_args (suc k) stack steps h =
      let (v, found, same) = get_elem?_below args k h in
      let behind : take (suc k) args ++ stack ≡ take k args ++ (v ∷ stack) =
        ap (λ (l : List V). l ++ stack) same ∙ append_assoc (take k args) (v ∷ []) stack in
      rw (found, behind) (run_steps-reversed_args k (v ∷ stack) steps (omega arith))

  pub direct_steps :
      (b : RuntimeBinding)
      → b.emit_plan ≡ none
      → length args ≡ length b.syscall.args
      → run_steps int args [] (emit_steps b) ≡ some (args, b.syscall)
  unfolding emit_steps steps_of
  direct_steps b plain arity =
      let k = length b.syscall.args in
      let all = take_all args k (omega (arith, arity)) in
      rw plain (
        run_steps-reversed_args k [] (RuntimeEmitStep.syscall b.syscall ∷ []) (omega (arith, arity))
        ∙ rw (all, append-nil args) (unfold run_steps in refl))
