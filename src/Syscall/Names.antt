-- ===== src/Syscall/Names.antt =====
-- The table of the bindings: their names, their lookup, and what their steps leave.
use neo_lang.Prelude.{
  ℕ, ◌≡◌, refl, sym, subst, ◌⊎◌, inl, inr, none, some, List, [], ◌∷◌, length, get_elem?, All,
  All-get_elem?, arith,
}
use neo_lang.Link.{same_name}
use neo_lang.Syscall.{
  RuntimeBinding, steps_of, emit_steps, arg_count, source_arg_count, wrapped,
  default_runtime_method_name, runtime_suffix_to_camel_case, last_part, to_lowercase,
}
use neo_lang.Syscall.Contract.{contract_call}
use neo_lang.Syscall.Table.{
  runtime_bindings, runtime_binding_for_method, find_method, contract_call_emit,
  contract_call_source_args,
}
use neo_lang.Syscall.Steps.{run_steps, direct_steps}

-- The binding has the arguments of its system call, and no plan of its own.
abbrev pub IsDirect : RuntimeBinding → Type 0
IsDirect b = (b.emit_plan ≡ none) × (b.source_args ≡ none)

abbrev call_binding : RuntimeBinding
call_binding =
    wrapped (b'c' ∷ b'a' ∷ b'l' ∷ b'l' ∷ []) contract_call contract_call_source_args
      contract_call_emit

abbrev Resolves : RuntimeBinding → Type 0
Resolves b = runtime_binding_for_method b.method ≡ some b

runtime_bindings-Resolves : All Resolves runtime_bindings
unfolding runtime_binding_for_method find_method same_name
runtime_bindings-Resolves = search

-- Each binding of the table is found by its name.
pub runtime_binding_for_method-finds :
    (k : ℕ) (b : RuntimeBinding)
    → get_elem? runtime_bindings k ≡ some b
    → runtime_binding_for_method b.method ≡ some b
runtime_binding_for_method-finds k b h =
    All-get_elem? Resolves runtime_bindings k runtime_bindings-Resolves h

abbrev IsListed : RuntimeBinding → Type 0
IsListed b =
    (IsDirect b × (b.method ≡ default_runtime_method_name b.syscall.name)) ⊎ (b ≡ call_binding)

runtime_bindings-IsListed : All IsListed runtime_bindings
unfolding default_runtime_method_name runtime_suffix_to_camel_case last_part to_lowercase
runtime_bindings-IsListed = search (inl, inr)

call_steps :
    {V : Type 0} (int : ℕ → V) (args : List V)
    → length args ≡ source_arg_count call_binding
    → (stack : List V) × (run_steps int args [] (emit_steps call_binding)
        ≡ some (stack, contract_call))
      × ◌≡◌ {A = ℕ} (length stack) (length contract_call.args)
unfolding source_arg_count arg_count emit_steps steps_of run_steps
call_steps int [] h = absurd (omega arith)
call_steps int (a ∷ []) h = absurd (omega arith)
call_steps int (a ∷ b ∷ []) h = absurd (omega arith)
call_steps int (a ∷ b ∷ c ∷ []) h = (a ∷ b ∷ int _ ∷ c ∷ [], refl, refl)
call_steps int (a ∷ b ∷ c ∷ d ∷ args) h = absurd (omega arith)

-- The steps make one system call, the binding's, as the last of them, on a stack of as many items as
-- it takes; without a plan of the
-- binding's own these are the arguments, the first on top, and the name is the call's.
abbrev pub Leaves : {V : Type 0} → (ℕ → V) → List V → RuntimeBinding → Type 0
Leaves {V} int args b =
    (stack : List V) × (run_steps int args [] (emit_steps b) ≡ some (stack, b.syscall))
    × ◌≡◌ {A = ℕ} (length stack) (length b.syscall.args)
    × (IsDirect b → (stack ≡ args) × (b.method ≡ default_runtime_method_name b.syscall.name))

call-Leaves :
    {V : Type 0} (int : ℕ → V) (args : List V)
    → length args ≡ source_arg_count call_binding
    → Leaves int args call_binding
call-Leaves int args h =
    let (stack, run, same) = call_steps int args h in (stack, run, same, λ (d, _). absurd (cc))

-- The steps of a binding of the table, on as many arguments as it takes, make one system call, the
-- binding's, as the last step, on a stack that holds as many items as the call takes; a binding without a plan of its own has the
-- call's name by convention and leaves its arguments there, the first on top.
pub emit_steps-arity :
    {V : Type 0} (int : ℕ → V) (args : List V) (k : ℕ) (b : RuntimeBinding)
    → get_elem? runtime_bindings k ≡ some b
    → length args ≡ source_arg_count b
    → Leaves int args b
unfolding source_arg_count arg_count
emit_steps-arity int args k b h arity =
    elim (All-get_elem? IsListed runtime_bindings k runtime_bindings-IsListed h) [
      | inl ((plain, own), named) ↦
          let same : length args ≡ length b.syscall.args = rw own at arity in
          (args, direct_steps int args b plain same, same, λ _. (refl, named))
      | inr is_call ↦
          let arity' =
            subst (λ (x : RuntimeBinding). length args ≡ source_arg_count x) is_call arity in
          subst (Leaves int args) (sym is_call) (call-Leaves int args arity')
    ]
