-- ===== src/Syscall/Contract.antt =====
-- The system calls `System.Contract.*` and `System.Crypto.*` (neo-compiler/src/target/syscall.rs).
use neo_lang.Prelude.{none, some, [], ◌∷◌}
use neo_lang.Ir.Builtin.{StackItemType}
use neo_lang.Syscall.{CallFlags, flags_byte, Syscall}

abbrev pub contract_call : Syscall
contract_call = record {
  name =
      b'S' ∷ b'y' ∷ b's' ∷ b't' ∷ b'e' ∷ b'm' ∷ b'.' ∷ b'C' ∷ b'o' ∷ b'n' ∷ b't' ∷ b'r' ∷ b'a'
      ∷ b'c' ∷ b't' ∷ b'.' ∷ b'C' ∷ b'a' ∷ b'l' ∷ b'l' ∷ [];
  args =
      (
        b'c' ∷ b'o' ∷ b'n' ∷ b't' ∷ b'r' ∷ b'a' ∷ b'c' ∷ b't' ∷ b'H' ∷ b'a' ∷ b's' ∷ b'h' ∷ [],
        StackItemType.byte_string,
      )
      ∷ (b'm' ∷ b'e' ∷ b't' ∷ b'h' ∷ b'o' ∷ b'd' ∷ [], StackItemType.byte_string)
      ∷ (b'c' ∷ b'a' ∷ b'l' ∷ b'l' ∷ b'F' ∷ b'l' ∷ b'a' ∷ b'g' ∷ b's' ∷ [], StackItemType.integer)
      ∷ (b'a' ∷ b'r' ∷ b'g' ∷ b's' ∷ [], StackItemType.array)
      ∷ [];
  return_type = none;
  callflags = flags_byte CallFlags.read_only;
}

abbrev pub contract_get_call_flags : Syscall
contract_get_call_flags = record {
  name =
      b'S' ∷ b'y' ∷ b's' ∷ b't' ∷ b'e' ∷ b'm' ∷ b'.' ∷ b'C' ∷ b'o' ∷ b'n' ∷ b't' ∷ b'r' ∷ b'a'
      ∷ b'c' ∷ b't' ∷ b'.' ∷ b'G' ∷ b'e' ∷ b't' ∷ b'C' ∷ b'a' ∷ b'l' ∷ b'l' ∷ b'F' ∷ b'l' ∷ b'a'
      ∷ b'g' ∷ b's' ∷ [];
  args = [];
  return_type = some StackItemType.integer;
  callflags = flags_byte CallFlags.none_flags;
}

abbrev pub contract_create_standard_account : Syscall
contract_create_standard_account = record {
  name =
      b'S' ∷ b'y' ∷ b's' ∷ b't' ∷ b'e' ∷ b'm' ∷ b'.' ∷ b'C' ∷ b'o' ∷ b'n' ∷ b't' ∷ b'r' ∷ b'a'
      ∷ b'c' ∷ b't' ∷ b'.' ∷ b'C' ∷ b'r' ∷ b'e' ∷ b'a' ∷ b't' ∷ b'e' ∷ b'S' ∷ b't' ∷ b'a' ∷ b'n'
      ∷ b'd' ∷ b'a' ∷ b'r' ∷ b'd' ∷ b'A' ∷ b'c' ∷ b'c' ∷ b'o' ∷ b'u' ∷ b'n' ∷ b't' ∷ [];
  args = (b'p' ∷ b'u' ∷ b'b' ∷ b'K' ∷ b'e' ∷ b'y' ∷ [], StackItemType.byte_string) ∷ [];
  return_type = some StackItemType.byte_string;
  callflags = flags_byte CallFlags.none_flags;
}

abbrev pub contract_create_multisig_account : Syscall
contract_create_multisig_account = record {
  name =
      b'S' ∷ b'y' ∷ b's' ∷ b't' ∷ b'e' ∷ b'm' ∷ b'.' ∷ b'C' ∷ b'o' ∷ b'n' ∷ b't' ∷ b'r' ∷ b'a'
      ∷ b'c' ∷ b't' ∷ b'.' ∷ b'C' ∷ b'r' ∷ b'e' ∷ b'a' ∷ b't' ∷ b'e' ∷ b'M' ∷ b'u' ∷ b'l' ∷ b't'
      ∷ b'i' ∷ b's' ∷ b'i' ∷ b'g' ∷ b'A' ∷ b'c' ∷ b'c' ∷ b'o' ∷ b'u' ∷ b'n' ∷ b't' ∷ [];
  args =
      (b'm' ∷ [], StackItemType.integer)
      ∷ (b'p' ∷ b'u' ∷ b'b' ∷ b'K' ∷ b'e' ∷ b'y' ∷ b's' ∷ [], StackItemType.array)
      ∷ [];
  return_type = some StackItemType.byte_string;
  callflags = flags_byte CallFlags.none_flags;
}

abbrev pub crypto_check_sig : Syscall
crypto_check_sig = record {
  name =
      b'S' ∷ b'y' ∷ b's' ∷ b't' ∷ b'e' ∷ b'm' ∷ b'.' ∷ b'C' ∷ b'r' ∷ b'y' ∷ b'p' ∷ b't' ∷ b'o'
      ∷ b'.' ∷ b'C' ∷ b'h' ∷ b'e' ∷ b'c' ∷ b'k' ∷ b'S' ∷ b'i' ∷ b'g' ∷ [];
  args =
      (b'p' ∷ b'u' ∷ b'b' ∷ b'k' ∷ b'e' ∷ b'y' ∷ [], StackItemType.byte_string)
      ∷ (b's' ∷ b'i' ∷ b'g' ∷ b'n' ∷ b'a' ∷ b't' ∷ b'u' ∷ b'r' ∷ b'e' ∷ [], StackItemType.buffer)
      ∷ [];
  return_type = some StackItemType.boolean;
  callflags = flags_byte CallFlags.none_flags;
}

abbrev pub crypto_check_multisig : Syscall
crypto_check_multisig = record {
  name =
      b'S' ∷ b'y' ∷ b's' ∷ b't' ∷ b'e' ∷ b'm' ∷ b'.' ∷ b'C' ∷ b'r' ∷ b'y' ∷ b'p' ∷ b't' ∷ b'o'
      ∷ b'.' ∷ b'C' ∷ b'h' ∷ b'e' ∷ b'c' ∷ b'k' ∷ b'M' ∷ b'u' ∷ b'l' ∷ b't' ∷ b'i' ∷ b's' ∷ b'i'
      ∷ b'g' ∷ [];
  args =
      (b'p' ∷ b'u' ∷ b'b' ∷ b'k' ∷ b'e' ∷ b'y' ∷ b's' ∷ [], StackItemType.array)
      ∷ (
        b's' ∷ b'i' ∷ b'g' ∷ b'n' ∷ b'a' ∷ b't' ∷ b'u' ∷ b'r' ∷ b'e' ∷ b's' ∷ [],
        StackItemType.array,
      )
      ∷ [];
  return_type = some StackItemType.boolean;
  callflags = flags_byte CallFlags.none_flags;
}
