-- ===== src/Slots.antt =====
-- The slots of a function (neo-compiler/src/codegen/env.rs): names in nested scopes, arguments,
-- and the loads and stores of a slot. A hash map is an association list, names are bytes.

pub mod Env
use neo_lang.Prelude.{
  ℕ, ◌+◌, Bool, Option, none, some, List, [], ◌∷◌, ◌==◌, leb, if◌then◌else◌, length, Result, ok,
  err, ◌>>=◌,
}
use neo_lang.OpCode.{OpCode}
use neo_lang.Builder.{Builder, emit, emit_with_operands}
use neo_lang.Link.{lookup}

pub data Slot : Type 0 where
  arg : ℕ → Slot
  local : ℕ → Slot

-- The errors of the environment; `panic` is the `expect` on an empty stack of scopes.
pub data SlotError : Type 0 where
  local_limit_exceeded : SlotError
  duplicate_local : List ℕ → SlotError
  undefined_variable : List ℕ → SlotError
  panic : SlotError

-- The innermost scope is the first.
pub record VarEnv : Type 0 where
  pub args : List (List ℕ × ℕ)
  pub scopes : List (List (List ℕ × ℕ))
  pub next_local : ℕ

-- The loop over the parameters; a later one of the same name is in front.
unfoldable pub insert_args : ℕ → List (List ℕ × ℕ) → List (List ℕ) → List (List ℕ × ℕ)
insert_args index args [] = args
insert_args index args (name ∷ names) = insert_args (index + 1) ((name, index) ∷ args) names

-- The names of the parameters.
unfoldable pub new : List (List ℕ) → Result SlotError VarEnv
new params =
    if leb (length params) 0xff
    then ok (record { args = insert_args 0 [] params; scopes = [] ∷ []; next_local = 0 })
    else err local_limit_exceeded

unfoldable pub enter_block : VarEnv → VarEnv
enter_block env = record env { scopes = [] ∷ env.scopes }

pop : List (List (List ℕ × ℕ)) → List (List (List ℕ × ℕ))
pop [] = []
pop (scope ∷ scopes) = scopes

unfoldable pub exit_block : VarEnv → VarEnv
unfolding pop
exit_block env = record env { scopes = pop env.scopes }

unfoldable pub alloc_slot : VarEnv → Result SlotError (VarEnv × ℕ)
alloc_slot env =
    if env.next_local == 0xff
    then err local_limit_exceeded
    else ok (record env { next_local = env.next_local + 1 }, env.next_local)

unfoldable pub declare_fresh :
    VarEnv
    → List ℕ
    → List (List ℕ × ℕ)
    → List (List (List ℕ × ℕ))
    → Option ℕ
    → Result SlotError (VarEnv × ℕ)
declare_fresh env name top outer (some _) = err (duplicate_local name)
declare_fresh env name top outer none = ok (
  record env { scopes = ((name, env.next_local) ∷ top) ∷ outer; next_local = env.next_local + 1 },
  env.next_local,
)

unfoldable pub declare_in :
    VarEnv → List ℕ → List (List (List ℕ × ℕ)) → Result SlotError (VarEnv × ℕ)
declare_in env name [] = err panic
declare_in env name (top ∷ outer) = declare_fresh env name top outer (lookup top name)

-- `checked_add` does not fail behind the test for 255. After an error the environment is not used
-- again.
unfoldable pub declare_local : VarEnv → List ℕ → Result SlotError (VarEnv × ℕ)
declare_local env name =
    if env.next_local == 0xff then err local_limit_exceeded else declare_in env name env.scopes

unfoldable pub resolve_arg : List ℕ → Option ℕ → Result SlotError Slot
resolve_arg name (some index) = ok (arg index)
resolve_arg name none = err (undefined_variable name)

-- From the innermost scope on, then the arguments.
unfoldable pub resolve_in :
    List (List ℕ × ℕ) → List (List (List ℕ × ℕ)) → List ℕ → Result SlotError Slot
resolve_in args [] name = resolve_arg name (lookup args name)
resolve_in args (scope ∷ scopes) name = elim (lookup scope name) [
  | some slot ↦ ok (local slot)
  | none ↦ resolve_in args scopes name
]

unfoldable pub resolve : VarEnv → List ℕ → Result SlotError Slot
resolve env name = resolve_in env.args env.scopes name

unfoldable pub emit_ldarg : Builder → ℕ → Builder
emit_ldarg b index =
    if index == 0
    then emit b OpCode.ldarg0
    else if index == 1
    then emit b OpCode.ldarg1
    else if index == 2
    then emit b OpCode.ldarg2
    else if index == 3
    then emit b OpCode.ldarg3
    else if index == 4
    then emit b OpCode.ldarg4
    else if index == 5
    then emit b OpCode.ldarg5
    else if index == 6
    then emit b OpCode.ldarg6
    else emit_with_operands b OpCode.ldarg (index ∷ [])

unfoldable pub emit_ldloc : Builder → ℕ → Builder
emit_ldloc b index =
    if index == 0
    then emit b OpCode.ldloc0
    else if index == 1
    then emit b OpCode.ldloc1
    else if index == 2
    then emit b OpCode.ldloc2
    else if index == 3
    then emit b OpCode.ldloc3
    else if index == 4
    then emit b OpCode.ldloc4
    else if index == 5
    then emit b OpCode.ldloc5
    else if index == 6
    then emit b OpCode.ldloc6
    else emit_with_operands b OpCode.ldloc (index ∷ [])

unfoldable pub emit_stloc : Builder → ℕ → Builder
emit_stloc b index =
    if index == 0
    then emit b OpCode.stloc0
    else if index == 1
    then emit b OpCode.stloc1
    else if index == 2
    then emit b OpCode.stloc2
    else if index == 3
    then emit b OpCode.stloc3
    else if index == 4
    then emit b OpCode.stloc4
    else if index == 5
    then emit b OpCode.stloc5
    else if index == 6
    then emit b OpCode.stloc6
    else emit_with_operands b OpCode.stloc (index ∷ [])

unfoldable pub emit_starg : Builder → ℕ → Builder
emit_starg b index =
    if index == 0
    then emit b OpCode.starg0
    else if index == 1
    then emit b OpCode.starg1
    else if index == 2
    then emit b OpCode.starg2
    else if index == 3
    then emit b OpCode.starg3
    else if index == 4
    then emit b OpCode.starg4
    else if index == 5
    then emit b OpCode.starg5
    else if index == 6
    then emit b OpCode.starg6
    else emit_with_operands b OpCode.starg (index ∷ [])

unfoldable pub emit_ldslot : Builder → Slot → Builder
emit_ldslot b (arg index) = emit_ldarg b index
emit_ldslot b (local index) = emit_ldloc b index
