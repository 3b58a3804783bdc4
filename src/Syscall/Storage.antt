-- ===== src/Syscall/Storage.antt =====
-- The system calls `System.Storage.*` and `System.Storage.Local.*` (neo-compiler/src/target/syscall.rs).
use neo_lang.Prelude.{none, some, [], ◌∷◌}
use neo_lang.Ir.Builtin.{StackItemType}
use neo_lang.Syscall.{CallFlags, flags_byte, Syscall}

abbrev pub storage_get_context : Syscall
storage_get_context = record {
  name =
      b'S' ∷ b'y' ∷ b's' ∷ b't' ∷ b'e' ∷ b'm' ∷ b'.' ∷ b'S' ∷ b't' ∷ b'o' ∷ b'r' ∷ b'a' ∷ b'g'
      ∷ b'e' ∷ b'.' ∷ b'G' ∷ b'e' ∷ b't' ∷ b'C' ∷ b'o' ∷ b'n' ∷ b't' ∷ b'e' ∷ b'x' ∷ b't' ∷ [];
  args = [];
  return_type = some StackItemType.array;
  callflags = flags_byte CallFlags.read_states;
}

abbrev pub storage_get_read_only_context : Syscall
storage_get_read_only_context = record {
  name =
      b'S' ∷ b'y' ∷ b's' ∷ b't' ∷ b'e' ∷ b'm' ∷ b'.' ∷ b'S' ∷ b't' ∷ b'o' ∷ b'r' ∷ b'a' ∷ b'g'
      ∷ b'e' ∷ b'.' ∷ b'G' ∷ b'e' ∷ b't' ∷ b'R' ∷ b'e' ∷ b'a' ∷ b'd' ∷ b'O' ∷ b'n' ∷ b'l' ∷ b'y'
      ∷ b'C' ∷ b'o' ∷ b'n' ∷ b't' ∷ b'e' ∷ b'x' ∷ b't' ∷ [];
  args = [];
  return_type = some StackItemType.array;
  callflags = flags_byte CallFlags.read_states;
}

abbrev pub storage_as_read_only : Syscall
storage_as_read_only = record {
  name =
      b'S' ∷ b'y' ∷ b's' ∷ b't' ∷ b'e' ∷ b'm' ∷ b'.' ∷ b'S' ∷ b't' ∷ b'o' ∷ b'r' ∷ b'a' ∷ b'g'
      ∷ b'e' ∷ b'.' ∷ b'A' ∷ b's' ∷ b'R' ∷ b'e' ∷ b'a' ∷ b'd' ∷ b'O' ∷ b'n' ∷ b'l' ∷ b'y' ∷ [];
  args = [];
  return_type = some StackItemType.array;
  callflags = flags_byte CallFlags.read_states;
}

abbrev pub storage_put : Syscall
storage_put = record {
  name =
      b'S' ∷ b'y' ∷ b's' ∷ b't' ∷ b'e' ∷ b'm' ∷ b'.' ∷ b'S' ∷ b't' ∷ b'o' ∷ b'r' ∷ b'a' ∷ b'g'
      ∷ b'e' ∷ b'.' ∷ b'P' ∷ b'u' ∷ b't' ∷ [];
  args =
      (b'k' ∷ b'e' ∷ b'y' ∷ [], StackItemType.byte_string)
      ∷ (b'v' ∷ b'a' ∷ b'l' ∷ b'u' ∷ b'e' ∷ [], StackItemType.buffer)
      ∷ [];
  return_type = none;
  callflags = flags_byte CallFlags.write_states;
}

abbrev pub storage_get : Syscall
storage_get = record {
  name =
      b'S' ∷ b'y' ∷ b's' ∷ b't' ∷ b'e' ∷ b'm' ∷ b'.' ∷ b'S' ∷ b't' ∷ b'o' ∷ b'r' ∷ b'a' ∷ b'g'
      ∷ b'e' ∷ b'.' ∷ b'G' ∷ b'e' ∷ b't' ∷ [];
  args = (b'k' ∷ b'e' ∷ b'y' ∷ [], StackItemType.byte_string) ∷ [];
  return_type = some StackItemType.buffer;
  callflags = flags_byte CallFlags.read_states;
}

abbrev pub storage_delete : Syscall
storage_delete = record {
  name =
      b'S' ∷ b'y' ∷ b's' ∷ b't' ∷ b'e' ∷ b'm' ∷ b'.' ∷ b'S' ∷ b't' ∷ b'o' ∷ b'r' ∷ b'a' ∷ b'g'
      ∷ b'e' ∷ b'.' ∷ b'D' ∷ b'e' ∷ b'l' ∷ b'e' ∷ b't' ∷ b'e' ∷ [];
  args = (b'k' ∷ b'e' ∷ b'y' ∷ [], StackItemType.byte_string) ∷ [];
  return_type = none;
  callflags = flags_byte CallFlags.write_states;
}

abbrev pub storage_find : Syscall
storage_find = record {
  name =
      b'S' ∷ b'y' ∷ b's' ∷ b't' ∷ b'e' ∷ b'm' ∷ b'.' ∷ b'S' ∷ b't' ∷ b'o' ∷ b'r' ∷ b'a' ∷ b'g'
      ∷ b'e' ∷ b'.' ∷ b'F' ∷ b'i' ∷ b'n' ∷ b'd' ∷ [];
  args =
      (b'p' ∷ b'r' ∷ b'e' ∷ b'f' ∷ b'i' ∷ b'x' ∷ [], StackItemType.byte_string)
      ∷ (b'o' ∷ b'p' ∷ b't' ∷ b'i' ∷ b'o' ∷ b'n' ∷ b's' ∷ [], StackItemType.integer)
      ∷ [];
  return_type = some StackItemType.any;
  callflags = flags_byte CallFlags.read_states;
}

abbrev pub storage_local_put : Syscall
storage_local_put = record {
  name =
      b'S' ∷ b'y' ∷ b's' ∷ b't' ∷ b'e' ∷ b'm' ∷ b'.' ∷ b'S' ∷ b't' ∷ b'o' ∷ b'r' ∷ b'a' ∷ b'g'
      ∷ b'e' ∷ b'.' ∷ b'L' ∷ b'o' ∷ b'c' ∷ b'a' ∷ b'l' ∷ b'.' ∷ b'P' ∷ b'u' ∷ b't' ∷ [];
  args =
      (b'k' ∷ b'e' ∷ b'y' ∷ [], StackItemType.byte_string)
      ∷ (b'v' ∷ b'a' ∷ b'l' ∷ b'u' ∷ b'e' ∷ [], StackItemType.buffer)
      ∷ [];
  return_type = none;
  callflags = flags_byte CallFlags.write_states;
}

abbrev pub storage_local_get : Syscall
storage_local_get = record {
  name =
      b'S' ∷ b'y' ∷ b's' ∷ b't' ∷ b'e' ∷ b'm' ∷ b'.' ∷ b'S' ∷ b't' ∷ b'o' ∷ b'r' ∷ b'a' ∷ b'g'
      ∷ b'e' ∷ b'.' ∷ b'L' ∷ b'o' ∷ b'c' ∷ b'a' ∷ b'l' ∷ b'.' ∷ b'G' ∷ b'e' ∷ b't' ∷ [];
  args = (b'k' ∷ b'e' ∷ b'y' ∷ [], StackItemType.byte_string) ∷ [];
  return_type = some StackItemType.buffer;
  callflags = flags_byte CallFlags.read_states;
}

abbrev pub storage_local_delete : Syscall
storage_local_delete = record {
  name =
      b'S' ∷ b'y' ∷ b's' ∷ b't' ∷ b'e' ∷ b'm' ∷ b'.' ∷ b'S' ∷ b't' ∷ b'o' ∷ b'r' ∷ b'a' ∷ b'g'
      ∷ b'e' ∷ b'.' ∷ b'L' ∷ b'o' ∷ b'c' ∷ b'a' ∷ b'l' ∷ b'.' ∷ b'D' ∷ b'e' ∷ b'l' ∷ b'e' ∷ b't'
      ∷ b'e' ∷ [];
  args = (b'k' ∷ b'e' ∷ b'y' ∷ [], StackItemType.byte_string) ∷ [];
  return_type = none;
  callflags = flags_byte CallFlags.write_states;
}

abbrev pub storage_local_find : Syscall
storage_local_find = record {
  name =
      b'S' ∷ b'y' ∷ b's' ∷ b't' ∷ b'e' ∷ b'm' ∷ b'.' ∷ b'S' ∷ b't' ∷ b'o' ∷ b'r' ∷ b'a' ∷ b'g'
      ∷ b'e' ∷ b'.' ∷ b'L' ∷ b'o' ∷ b'c' ∷ b'a' ∷ b'l' ∷ b'.' ∷ b'F' ∷ b'i' ∷ b'n' ∷ b'd' ∷ [];
  args =
      (b'p' ∷ b'r' ∷ b'e' ∷ b'f' ∷ b'i' ∷ b'x' ∷ [], StackItemType.byte_string)
      ∷ (b'o' ∷ b'p' ∷ b't' ∷ b'i' ∷ b'o' ∷ b'n' ∷ b's' ∷ [], StackItemType.integer)
      ∷ [];
  return_type = some StackItemType.any;
  callflags = flags_byte CallFlags.read_states;
}
