-- ===== src/Syscall/Runtime.antt =====
-- The system calls `System.Runtime.*` (neo-compiler/src/target/syscall.rs).
use neo_lang.Prelude.{none, some, [], ◌∷◌}
use neo_lang.Ir.Builtin.{StackItemType}
use neo_lang.Syscall.{CallFlags, flags_byte, Syscall}

abbrev pub runtime_platform : Syscall
runtime_platform = record {
  name =
      b'S' ∷ b'y' ∷ b's' ∷ b't' ∷ b'e' ∷ b'm' ∷ b'.' ∷ b'R' ∷ b'u' ∷ b'n' ∷ b't' ∷ b'i' ∷ b'm'
      ∷ b'e' ∷ b'.' ∷ b'P' ∷ b'l' ∷ b'a' ∷ b't' ∷ b'f' ∷ b'o' ∷ b'r' ∷ b'm' ∷ [];
  args = [];
  return_type = some StackItemType.byte_string;
  callflags = flags_byte CallFlags.none_flags;
}

abbrev pub runtime_get_network : Syscall
runtime_get_network = record {
  name =
      b'S' ∷ b'y' ∷ b's' ∷ b't' ∷ b'e' ∷ b'm' ∷ b'.' ∷ b'R' ∷ b'u' ∷ b'n' ∷ b't' ∷ b'i' ∷ b'm'
      ∷ b'e' ∷ b'.' ∷ b'G' ∷ b'e' ∷ b't' ∷ b'N' ∷ b'e' ∷ b't' ∷ b'w' ∷ b'o' ∷ b'r' ∷ b'k' ∷ [];
  args = [];
  return_type = some StackItemType.integer;
  callflags = flags_byte CallFlags.none_flags;
}

abbrev pub runtime_get_address_version : Syscall
runtime_get_address_version = record {
  name =
      b'S' ∷ b'y' ∷ b's' ∷ b't' ∷ b'e' ∷ b'm' ∷ b'.' ∷ b'R' ∷ b'u' ∷ b'n' ∷ b't' ∷ b'i' ∷ b'm'
      ∷ b'e' ∷ b'.' ∷ b'G' ∷ b'e' ∷ b't' ∷ b'A' ∷ b'd' ∷ b'd' ∷ b'r' ∷ b'e' ∷ b's' ∷ b's' ∷ b'V'
      ∷ b'e' ∷ b'r' ∷ b's' ∷ b'i' ∷ b'o' ∷ b'n' ∷ [];
  args = [];
  return_type = some StackItemType.integer;
  callflags = flags_byte CallFlags.none_flags;
}

abbrev pub runtime_get_trigger : Syscall
runtime_get_trigger = record {
  name =
      b'S' ∷ b'y' ∷ b's' ∷ b't' ∷ b'e' ∷ b'm' ∷ b'.' ∷ b'R' ∷ b'u' ∷ b'n' ∷ b't' ∷ b'i' ∷ b'm'
      ∷ b'e' ∷ b'.' ∷ b'G' ∷ b'e' ∷ b't' ∷ b'T' ∷ b'r' ∷ b'i' ∷ b'g' ∷ b'g' ∷ b'e' ∷ b'r' ∷ [];
  args = [];
  return_type = some StackItemType.integer;
  callflags = flags_byte CallFlags.none_flags;
}

abbrev pub runtime_get_time : Syscall
runtime_get_time = record {
  name =
      b'S' ∷ b'y' ∷ b's' ∷ b't' ∷ b'e' ∷ b'm' ∷ b'.' ∷ b'R' ∷ b'u' ∷ b'n' ∷ b't' ∷ b'i' ∷ b'm'
      ∷ b'e' ∷ b'.' ∷ b'G' ∷ b'e' ∷ b't' ∷ b'T' ∷ b'i' ∷ b'm' ∷ b'e' ∷ [];
  args = [];
  return_type = some StackItemType.integer;
  callflags = flags_byte CallFlags.none_flags;
}

abbrev pub runtime_get_script_container : Syscall
runtime_get_script_container = record {
  name =
      b'S' ∷ b'y' ∷ b's' ∷ b't' ∷ b'e' ∷ b'm' ∷ b'.' ∷ b'R' ∷ b'u' ∷ b'n' ∷ b't' ∷ b'i' ∷ b'm'
      ∷ b'e' ∷ b'.' ∷ b'G' ∷ b'e' ∷ b't' ∷ b'S' ∷ b'c' ∷ b'r' ∷ b'i' ∷ b'p' ∷ b't' ∷ b'C' ∷ b'o'
      ∷ b'n' ∷ b't' ∷ b'a' ∷ b'i' ∷ b'n' ∷ b'e' ∷ b'r' ∷ [];
  args = [];
  return_type = some StackItemType.any;
  callflags = flags_byte CallFlags.none_flags;
}

abbrev pub runtime_get_executing_script_hash : Syscall
runtime_get_executing_script_hash = record {
  name =
      b'S' ∷ b'y' ∷ b's' ∷ b't' ∷ b'e' ∷ b'm' ∷ b'.' ∷ b'R' ∷ b'u' ∷ b'n' ∷ b't' ∷ b'i' ∷ b'm'
      ∷ b'e' ∷ b'.' ∷ b'G' ∷ b'e' ∷ b't' ∷ b'E' ∷ b'x' ∷ b'e' ∷ b'c' ∷ b'u' ∷ b't' ∷ b'i' ∷ b'n'
      ∷ b'g' ∷ b'S' ∷ b'c' ∷ b'r' ∷ b'i' ∷ b'p' ∷ b't' ∷ b'H' ∷ b'a' ∷ b's' ∷ b'h' ∷ [];
  args = [];
  return_type = some StackItemType.byte_string;
  callflags = flags_byte CallFlags.none_flags;
}

abbrev pub runtime_get_calling_script_hash : Syscall
runtime_get_calling_script_hash = record {
  name =
      b'S' ∷ b'y' ∷ b's' ∷ b't' ∷ b'e' ∷ b'm' ∷ b'.' ∷ b'R' ∷ b'u' ∷ b'n' ∷ b't' ∷ b'i' ∷ b'm'
      ∷ b'e' ∷ b'.' ∷ b'G' ∷ b'e' ∷ b't' ∷ b'C' ∷ b'a' ∷ b'l' ∷ b'l' ∷ b'i' ∷ b'n' ∷ b'g' ∷ b'S'
      ∷ b'c' ∷ b'r' ∷ b'i' ∷ b'p' ∷ b't' ∷ b'H' ∷ b'a' ∷ b's' ∷ b'h' ∷ [];
  args = [];
  return_type = some StackItemType.byte_string;
  callflags = flags_byte CallFlags.none_flags;
}

abbrev pub runtime_get_entry_script_hash : Syscall
runtime_get_entry_script_hash = record {
  name =
      b'S' ∷ b'y' ∷ b's' ∷ b't' ∷ b'e' ∷ b'm' ∷ b'.' ∷ b'R' ∷ b'u' ∷ b'n' ∷ b't' ∷ b'i' ∷ b'm'
      ∷ b'e' ∷ b'.' ∷ b'G' ∷ b'e' ∷ b't' ∷ b'E' ∷ b'n' ∷ b't' ∷ b'r' ∷ b'y' ∷ b'S' ∷ b'c' ∷ b'r'
      ∷ b'i' ∷ b'p' ∷ b't' ∷ b'H' ∷ b'a' ∷ b's' ∷ b'h' ∷ [];
  args = [];
  return_type = some StackItemType.byte_string;
  callflags = flags_byte CallFlags.none_flags;
}

abbrev pub runtime_load_script : Syscall
runtime_load_script = record {
  name =
      b'S' ∷ b'y' ∷ b's' ∷ b't' ∷ b'e' ∷ b'm' ∷ b'.' ∷ b'R' ∷ b'u' ∷ b'n' ∷ b't' ∷ b'i' ∷ b'm'
      ∷ b'e' ∷ b'.' ∷ b'L' ∷ b'o' ∷ b'a' ∷ b'd' ∷ b'S' ∷ b'c' ∷ b'r' ∷ b'i' ∷ b'p' ∷ b't' ∷ [];
  args =
      (b's' ∷ b'c' ∷ b'r' ∷ b'i' ∷ b'p' ∷ b't' ∷ [], StackItemType.buffer)
      ∷ (b'c' ∷ b'a' ∷ b'l' ∷ b'l' ∷ b'F' ∷ b'l' ∷ b'a' ∷ b'g' ∷ b's' ∷ [], StackItemType.integer)
      ∷ (b'a' ∷ b'r' ∷ b'g' ∷ b's' ∷ [], StackItemType.array)
      ∷ [];
  return_type = none;
  callflags = flags_byte CallFlags.allow_call;
}

abbrev pub runtime_check_witness : Syscall
runtime_check_witness = record {
  name =
      b'S' ∷ b'y' ∷ b's' ∷ b't' ∷ b'e' ∷ b'm' ∷ b'.' ∷ b'R' ∷ b'u' ∷ b'n' ∷ b't' ∷ b'i' ∷ b'm'
      ∷ b'e' ∷ b'.' ∷ b'C' ∷ b'h' ∷ b'e' ∷ b'c' ∷ b'k' ∷ b'W' ∷ b'i' ∷ b't' ∷ b'n' ∷ b'e' ∷ b's'
      ∷ b's' ∷ [];
  args =
      (
        b'h' ∷ b'a' ∷ b's' ∷ b'h' ∷ b'O' ∷ b'r' ∷ b'P' ∷ b'u' ∷ b'b' ∷ b'k' ∷ b'e' ∷ b'y' ∷ [],
        StackItemType.buffer,
      )
      ∷ [];
  return_type = some StackItemType.boolean;
  callflags = flags_byte CallFlags.none_flags;
}

abbrev pub runtime_get_invocation_counter : Syscall
runtime_get_invocation_counter = record {
  name =
      b'S' ∷ b'y' ∷ b's' ∷ b't' ∷ b'e' ∷ b'm' ∷ b'.' ∷ b'R' ∷ b'u' ∷ b'n' ∷ b't' ∷ b'i' ∷ b'm'
      ∷ b'e' ∷ b'.' ∷ b'G' ∷ b'e' ∷ b't' ∷ b'I' ∷ b'n' ∷ b'v' ∷ b'o' ∷ b'c' ∷ b'a' ∷ b't' ∷ b'i'
      ∷ b'o' ∷ b'n' ∷ b'C' ∷ b'o' ∷ b'u' ∷ b'n' ∷ b't' ∷ b'e' ∷ b'r' ∷ [];
  args = [];
  return_type = some StackItemType.integer;
  callflags = flags_byte CallFlags.none_flags;
}

abbrev pub runtime_get_random : Syscall
runtime_get_random = record {
  name =
      b'S' ∷ b'y' ∷ b's' ∷ b't' ∷ b'e' ∷ b'm' ∷ b'.' ∷ b'R' ∷ b'u' ∷ b'n' ∷ b't' ∷ b'i' ∷ b'm'
      ∷ b'e' ∷ b'.' ∷ b'G' ∷ b'e' ∷ b't' ∷ b'R' ∷ b'a' ∷ b'n' ∷ b'd' ∷ b'o' ∷ b'm' ∷ [];
  args = [];
  return_type = some StackItemType.integer;
  callflags = flags_byte CallFlags.none_flags;
}

abbrev pub runtime_log : Syscall
runtime_log = record {
  name =
      b'S' ∷ b'y' ∷ b's' ∷ b't' ∷ b'e' ∷ b'm' ∷ b'.' ∷ b'R' ∷ b'u' ∷ b'n' ∷ b't' ∷ b'i' ∷ b'm'
      ∷ b'e' ∷ b'.' ∷ b'L' ∷ b'o' ∷ b'g' ∷ [];
  args = (b's' ∷ b't' ∷ b'a' ∷ b't' ∷ b'e' ∷ [], StackItemType.buffer) ∷ [];
  return_type = none;
  callflags = flags_byte CallFlags.allow_notify;
}

abbrev pub runtime_notify : Syscall
runtime_notify = record {
  name =
      b'S' ∷ b'y' ∷ b's' ∷ b't' ∷ b'e' ∷ b'm' ∷ b'.' ∷ b'R' ∷ b'u' ∷ b'n' ∷ b't' ∷ b'i' ∷ b'm'
      ∷ b'e' ∷ b'.' ∷ b'N' ∷ b'o' ∷ b't' ∷ b'i' ∷ b'f' ∷ b'y' ∷ [];
  args =
      (b'e' ∷ b'v' ∷ b'e' ∷ b'n' ∷ b't' ∷ b'N' ∷ b'a' ∷ b'm' ∷ b'e' ∷ [], StackItemType.byte_string)
      ∷ (b's' ∷ b't' ∷ b'a' ∷ b't' ∷ b'e' ∷ [], StackItemType.array)
      ∷ [];
  return_type = none;
  callflags = flags_byte CallFlags.allow_notify;
}

abbrev pub runtime_get_notifications : Syscall
runtime_get_notifications = record {
  name =
      b'S' ∷ b'y' ∷ b's' ∷ b't' ∷ b'e' ∷ b'm' ∷ b'.' ∷ b'R' ∷ b'u' ∷ b'n' ∷ b't' ∷ b'i' ∷ b'm'
      ∷ b'e' ∷ b'.' ∷ b'G' ∷ b'e' ∷ b't' ∷ b'N' ∷ b'o' ∷ b't' ∷ b'i' ∷ b'f' ∷ b'i' ∷ b'c' ∷ b'a'
      ∷ b't' ∷ b'i' ∷ b'o' ∷ b'n' ∷ b's' ∷ [];
  args = (b'h' ∷ b'a' ∷ b's' ∷ b'h' ∷ [], StackItemType.byte_string) ∷ [];
  return_type = some StackItemType.array;
  callflags = flags_byte CallFlags.none_flags;
}

abbrev pub runtime_gas_left : Syscall
runtime_gas_left = record {
  name =
      b'S' ∷ b'y' ∷ b's' ∷ b't' ∷ b'e' ∷ b'm' ∷ b'.' ∷ b'R' ∷ b'u' ∷ b'n' ∷ b't' ∷ b'i' ∷ b'm'
      ∷ b'e' ∷ b'.' ∷ b'G' ∷ b'a' ∷ b's' ∷ b'L' ∷ b'e' ∷ b'f' ∷ b't' ∷ [];
  args = [];
  return_type = some StackItemType.integer;
  callflags = flags_byte CallFlags.none_flags;
}

abbrev pub runtime_burn_gas : Syscall
runtime_burn_gas = record {
  name =
      b'S' ∷ b'y' ∷ b's' ∷ b't' ∷ b'e' ∷ b'm' ∷ b'.' ∷ b'R' ∷ b'u' ∷ b'n' ∷ b't' ∷ b'i' ∷ b'm'
      ∷ b'e' ∷ b'.' ∷ b'B' ∷ b'u' ∷ b'r' ∷ b'n' ∷ b'G' ∷ b'a' ∷ b's' ∷ [];
  args = (b'd' ∷ b'a' ∷ b't' ∷ b'o' ∷ b's' ∷ b'h' ∷ b'i' ∷ [], StackItemType.integer) ∷ [];
  return_type = none;
  callflags = flags_byte CallFlags.none_flags;
}

abbrev pub runtime_current_signers : Syscall
runtime_current_signers = record {
  name =
      b'S' ∷ b'y' ∷ b's' ∷ b't' ∷ b'e' ∷ b'm' ∷ b'.' ∷ b'R' ∷ b'u' ∷ b'n' ∷ b't' ∷ b'i' ∷ b'm'
      ∷ b'e' ∷ b'.' ∷ b'C' ∷ b'u' ∷ b'r' ∷ b'r' ∷ b'e' ∷ b'n' ∷ b't' ∷ b'S' ∷ b'i' ∷ b'g' ∷ b'n'
      ∷ b'e' ∷ b'r' ∷ b's' ∷ [];
  args = [];
  return_type = some StackItemType.array;
  callflags = flags_byte CallFlags.none_flags;
}
