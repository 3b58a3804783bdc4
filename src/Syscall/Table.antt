-- ===== src/Syscall/Table.antt =====
-- The tables of the system calls and of their names in the package `runtime`
-- (neo-compiler/src/target/syscall.rs).
use neo_lang.Prelude.{ℕ, Option, none, some, List, [], ◌∷◌, if◌then◌else◌}
use neo_lang.Ir.Builtin.{StackItemType}
use neo_lang.Link.{same_name}
use neo_lang.Syscall.{
  CallFlags, flags_byte, Syscall, RuntimeEmitStep, RuntimeBinding, direct, wrapped,
}
use neo_lang.Syscall.Contract.{
  contract_call, contract_get_call_flags, contract_create_standard_account,
  contract_create_multisig_account, crypto_check_sig, crypto_check_multisig,
}
use neo_lang.Syscall.Runtime.{
  runtime_platform, runtime_get_network, runtime_get_address_version, runtime_get_trigger,
  runtime_get_time, runtime_get_script_container, runtime_get_executing_script_hash,
  runtime_get_calling_script_hash, runtime_get_entry_script_hash, runtime_load_script,
  runtime_check_witness, runtime_get_invocation_counter, runtime_get_random, runtime_log,
  runtime_notify, runtime_get_notifications, runtime_gas_left, runtime_burn_gas,
  runtime_current_signers,
}
use neo_lang.Syscall.Storage.{
  storage_get_context, storage_get_read_only_context, storage_as_read_only, storage_put,
  storage_get, storage_delete, storage_find, storage_local_put, storage_local_get,
  storage_local_delete, storage_local_find,
}

abbrev pub contract_call_emit : List RuntimeEmitStep
contract_call_emit =
    RuntimeEmitStep.source_arg 2
    ∷ RuntimeEmitStep.injected_int (flags_byte CallFlags.read_only)
    ∷ RuntimeEmitStep.source_arg 1
    ∷ RuntimeEmitStep.source_arg 0
    ∷ RuntimeEmitStep.syscall contract_call
    ∷ []

abbrev pub contract_call_source_args : List StackItemType
contract_call_source_args =
    StackItemType.byte_string ∷ StackItemType.byte_string ∷ StackItemType.array ∷ []

abbrev pub runtime_bindings : List RuntimeBinding
runtime_bindings =
    wrapped (b'c' ∷ b'a' ∷ b'l' ∷ b'l' ∷ []) contract_call contract_call_source_args
      contract_call_emit
    ∷ direct
        (b'g' ∷ b'e' ∷ b't' ∷ b'C' ∷ b'a' ∷ b'l' ∷ b'l' ∷ b'F' ∷ b'l' ∷ b'a' ∷ b'g' ∷ b's' ∷ [])
        contract_get_call_flags
    ∷ direct
        (b'c' ∷ b'r' ∷ b'e' ∷ b'a' ∷ b't' ∷ b'e' ∷ b'S' ∷ b't' ∷ b'a' ∷ b'n' ∷ b'd' ∷ b'a' ∷ b'r'
          ∷ b'd' ∷ b'A' ∷ b'c' ∷ b'c' ∷ b'o' ∷ b'u' ∷ b'n' ∷ b't' ∷ [])
        contract_create_standard_account
    ∷ direct
        (b'c' ∷ b'r' ∷ b'e' ∷ b'a' ∷ b't' ∷ b'e' ∷ b'M' ∷ b'u' ∷ b'l' ∷ b't' ∷ b'i' ∷ b's' ∷ b'i'
          ∷ b'g' ∷ b'A' ∷ b'c' ∷ b'c' ∷ b'o' ∷ b'u' ∷ b'n' ∷ b't' ∷ [])
        contract_create_multisig_account
    ∷ direct (b'c' ∷ b'h' ∷ b'e' ∷ b'c' ∷ b'k' ∷ b'S' ∷ b'i' ∷ b'g' ∷ []) crypto_check_sig
    ∷ direct
        (b'c' ∷ b'h' ∷ b'e' ∷ b'c' ∷ b'k' ∷ b'M' ∷ b'u' ∷ b'l' ∷ b't' ∷ b'i' ∷ b's' ∷ b'i' ∷ b'g'
          ∷ [])
        crypto_check_multisig
    ∷ direct (b'p' ∷ b'l' ∷ b'a' ∷ b't' ∷ b'f' ∷ b'o' ∷ b'r' ∷ b'm' ∷ []) runtime_platform
    ∷ direct (b'g' ∷ b'e' ∷ b't' ∷ b'N' ∷ b'e' ∷ b't' ∷ b'w' ∷ b'o' ∷ b'r' ∷ b'k' ∷ [])
        runtime_get_network
    ∷ direct
        (b'g' ∷ b'e' ∷ b't' ∷ b'A' ∷ b'd' ∷ b'd' ∷ b'r' ∷ b'e' ∷ b's' ∷ b's' ∷ b'V' ∷ b'e' ∷ b'r'
          ∷ b's' ∷ b'i' ∷ b'o' ∷ b'n' ∷ [])
        runtime_get_address_version
    ∷ direct (b'g' ∷ b'e' ∷ b't' ∷ b'T' ∷ b'r' ∷ b'i' ∷ b'g' ∷ b'g' ∷ b'e' ∷ b'r' ∷ [])
        runtime_get_trigger
    ∷ direct (b'g' ∷ b'e' ∷ b't' ∷ b'T' ∷ b'i' ∷ b'm' ∷ b'e' ∷ []) runtime_get_time
    ∷ direct
        (b'g' ∷ b'e' ∷ b't' ∷ b'S' ∷ b'c' ∷ b'r' ∷ b'i' ∷ b'p' ∷ b't' ∷ b'C' ∷ b'o' ∷ b'n' ∷ b't'
          ∷ b'a' ∷ b'i' ∷ b'n' ∷ b'e' ∷ b'r' ∷ [])
        runtime_get_script_container
    ∷ direct
        (b'g' ∷ b'e' ∷ b't' ∷ b'E' ∷ b'x' ∷ b'e' ∷ b'c' ∷ b'u' ∷ b't' ∷ b'i' ∷ b'n' ∷ b'g' ∷ b'S'
          ∷ b'c' ∷ b'r' ∷ b'i' ∷ b'p' ∷ b't' ∷ b'H' ∷ b'a' ∷ b's' ∷ b'h' ∷ [])
        runtime_get_executing_script_hash
    ∷ direct
        (b'g' ∷ b'e' ∷ b't' ∷ b'C' ∷ b'a' ∷ b'l' ∷ b'l' ∷ b'i' ∷ b'n' ∷ b'g' ∷ b'S' ∷ b'c' ∷ b'r'
          ∷ b'i' ∷ b'p' ∷ b't' ∷ b'H' ∷ b'a' ∷ b's' ∷ b'h' ∷ [])
        runtime_get_calling_script_hash
    ∷ direct
        (b'g' ∷ b'e' ∷ b't' ∷ b'E' ∷ b'n' ∷ b't' ∷ b'r' ∷ b'y' ∷ b'S' ∷ b'c' ∷ b'r' ∷ b'i' ∷ b'p'
          ∷ b't' ∷ b'H' ∷ b'a' ∷ b's' ∷ b'h' ∷ [])
        runtime_get_entry_script_hash
    ∷ direct (b'l' ∷ b'o' ∷ b'a' ∷ b'd' ∷ b'S' ∷ b'c' ∷ b'r' ∷ b'i' ∷ b'p' ∷ b't' ∷ [])
        runtime_load_script
    ∷ direct
        (b'c' ∷ b'h' ∷ b'e' ∷ b'c' ∷ b'k' ∷ b'W' ∷ b'i' ∷ b't' ∷ b'n' ∷ b'e' ∷ b's' ∷ b's' ∷ [])
        runtime_check_witness
    ∷ direct
        (b'g' ∷ b'e' ∷ b't' ∷ b'I' ∷ b'n' ∷ b'v' ∷ b'o' ∷ b'c' ∷ b'a' ∷ b't' ∷ b'i' ∷ b'o' ∷ b'n'
          ∷ b'C' ∷ b'o' ∷ b'u' ∷ b'n' ∷ b't' ∷ b'e' ∷ b'r' ∷ [])
        runtime_get_invocation_counter
    ∷ direct (b'g' ∷ b'e' ∷ b't' ∷ b'R' ∷ b'a' ∷ b'n' ∷ b'd' ∷ b'o' ∷ b'm' ∷ []) runtime_get_random
    ∷ direct (b'l' ∷ b'o' ∷ b'g' ∷ []) runtime_log
    ∷ direct (b'n' ∷ b'o' ∷ b't' ∷ b'i' ∷ b'f' ∷ b'y' ∷ []) runtime_notify
    ∷ direct
        (b'g' ∷ b'e' ∷ b't' ∷ b'N' ∷ b'o' ∷ b't' ∷ b'i' ∷ b'f' ∷ b'i' ∷ b'c' ∷ b'a' ∷ b't' ∷ b'i'
          ∷ b'o' ∷ b'n' ∷ b's' ∷ [])
        runtime_get_notifications
    ∷ direct (b'g' ∷ b'a' ∷ b's' ∷ b'L' ∷ b'e' ∷ b'f' ∷ b't' ∷ []) runtime_gas_left
    ∷ direct (b'b' ∷ b'u' ∷ b'r' ∷ b'n' ∷ b'G' ∷ b'a' ∷ b's' ∷ []) runtime_burn_gas
    ∷ direct
        (b'c' ∷ b'u' ∷ b'r' ∷ b'r' ∷ b'e' ∷ b'n' ∷ b't' ∷ b'S' ∷ b'i' ∷ b'g' ∷ b'n' ∷ b'e' ∷ b'r'
          ∷ b's' ∷ [])
        runtime_current_signers
    ∷ direct (b'g' ∷ b'e' ∷ b't' ∷ b'C' ∷ b'o' ∷ b'n' ∷ b't' ∷ b'e' ∷ b'x' ∷ b't' ∷ [])
        storage_get_context
    ∷ direct
        (b'g' ∷ b'e' ∷ b't' ∷ b'R' ∷ b'e' ∷ b'a' ∷ b'd' ∷ b'O' ∷ b'n' ∷ b'l' ∷ b'y' ∷ b'C' ∷ b'o'
          ∷ b'n' ∷ b't' ∷ b'e' ∷ b'x' ∷ b't' ∷ [])
        storage_get_read_only_context
    ∷ direct (b'a' ∷ b's' ∷ b'R' ∷ b'e' ∷ b'a' ∷ b'd' ∷ b'O' ∷ b'n' ∷ b'l' ∷ b'y' ∷ [])
        storage_as_read_only
    ∷ direct (b'p' ∷ b'u' ∷ b't' ∷ []) storage_put
    ∷ direct (b'g' ∷ b'e' ∷ b't' ∷ []) storage_get
    ∷ direct (b'd' ∷ b'e' ∷ b'l' ∷ b'e' ∷ b't' ∷ b'e' ∷ []) storage_delete
    ∷ direct (b'f' ∷ b'i' ∷ b'n' ∷ b'd' ∷ []) storage_find
    ∷ []

abbrev pub syscalls : List Syscall
syscalls =
    contract_call ∷ contract_get_call_flags ∷ contract_create_standard_account
    ∷ contract_create_multisig_account ∷ crypto_check_sig ∷ crypto_check_multisig ∷ runtime_platform
    ∷ runtime_get_network ∷ runtime_get_address_version ∷ runtime_get_trigger ∷ runtime_get_time
    ∷ runtime_get_script_container ∷ runtime_get_executing_script_hash
    ∷ runtime_get_calling_script_hash ∷ runtime_get_entry_script_hash ∷ runtime_load_script
    ∷ runtime_check_witness ∷ runtime_get_invocation_counter ∷ runtime_get_random ∷ runtime_log
    ∷ runtime_notify ∷ runtime_get_notifications ∷ runtime_gas_left ∷ runtime_burn_gas
    ∷ runtime_current_signers ∷ storage_get_context ∷ storage_get_read_only_context
    ∷ storage_as_read_only ∷ storage_put ∷ storage_get ∷ storage_delete ∷ storage_find
    ∷ storage_local_put ∷ storage_local_get ∷ storage_local_delete ∷ storage_local_find ∷ []

unfoldable pub find_method : List RuntimeBinding → List ℕ → Option RuntimeBinding
find_method [] name = none
find_method (b ∷ bs) name = if same_name b.method name then some b else find_method bs name

-- The names are different, so the last entry of a name in the map is the only one.
unfoldable pub runtime_binding_for_method : List ℕ → Option RuntimeBinding
runtime_binding_for_method name = find_method runtime_bindings name
