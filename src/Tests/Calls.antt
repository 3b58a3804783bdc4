-- ===== src/Tests/Calls.antt =====
-- Concrete inputs of the theorems on the bindings of the system calls.
use neo_lang.Prelude.{◌≡◌, refl, some, [], ◌∷◌}
use neo_lang.Syscall.{RuntimeBinding, direct, source_arg_count, arg_count}
use neo_lang.Syscall.Contract.{crypto_check_sig}
use neo_lang.Syscall.Table.{runtime_binding_for_method}
use neo_lang.Syscall.Names.{Leaves, emit_steps-arity, runtime_binding_for_method-finds}

abbrev check_sig : RuntimeBinding
check_sig = direct (b'c' ∷ b'h' ∷ b'e' ∷ b'c' ∷ b'k' ∷ b'S' ∷ b'i' ∷ b'g' ∷ []) crypto_check_sig

emit_steps-arity_example : Leaves (λ n. n) (7 ∷ 8 ∷ []) check_sig
unfolding source_arg_count arg_count
emit_steps-arity_example = emit_steps-arity (λ n. n) (7 ∷ 8 ∷ []) 4 check_sig refl refl

runtime_binding_for_method-finds_example :
    runtime_binding_for_method check_sig.method ≡ some check_sig
runtime_binding_for_method-finds_example = runtime_binding_for_method-finds 4 check_sig refl
