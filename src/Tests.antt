-- ===== src/Tests.antt =====
-- Concrete inputs of the theorems, and small runs of the code.
mod Representation
mod Source
mod Types
mod Sites
mod Calls
use native.Mathlib.Decide.{ℕ_discrete}
use neo_lang.Prelude.{
  ◌⊎◌, ◌≢◌, ap, drop, take, ◌≤◌, true, ◌+◌, ℕ, ◌≡◌, ◌↔◌, refl, some, none, List, [], ◌∷◌, ◌++◌,
  arith, map, length, get_elem?, ok, err, ◌>>=?◌, replicate,
}
use neo_lang.Prelude.Int.{negsuc, of_bits, to_bits}
use neo_lang.Prelude.Bytes.{to_le_bytes, from_le_bytes}
use neo_lang.OpCode.{OpCode, byte, ◌==op◌}
use neo_lang.OpCode.Classes.{
  is_change_pc_short, is_change_pc_long, is_jump, is_jump_short, is_jump_long, is_jump_long-is_jump,
}
use neo_lang.OpCode.TryFrom.{by_search}
use neo_lang.Instruction.{
  Instruction, instruction, encode, bytecode_len, bytecode_offset_of, encoded_len,
}
use neo_lang.Builder.{push_data_instruction, patch_jmp_target_at_instruction, push_int_instruction}
use neo_lang.Builder.Pushes.{data_value, push_data-value, int_value, push_int-value}
use neo_lang.Builder.Patches.{long_target, patch_jmp_target-lands}
use neo_lang.Disasm.{DisasmError, stuck, decode_script}
use neo_lang.Disasm.Ends.{decode_script_ends}
use neo_lang.Disasm.Shapes.{shape}
use neo_lang.Disasm.RoundTrip.{decode_script-encode, encode-decode_script}
use neo_lang.Nef.{write_var_int, write_var_bytes, read_var_int, read_var_bytes}
use neo_lang.Nef.VarInt.{var_int, var_bytes, read_var_int-reads, read_var_bytes-reads}
use neo_lang.Nef.Tokens.{
  MethodToken, MethodToken-discrete, MethodTokenRegistry, empty_registry, limit_exceeded, find,
  intern,
}
use neo_lang.Nef.Tokens.Registry.{
  IsConsistent, grown, grown-IsConsistent, empty-IsConsistent, intern-IsConsistent, intern-err_iff,
}
use neo_lang.Nef.File.{Nef3, nef_magic, new, body_bytes, extract_script}
use neo_lang.Nef.File
use neo_lang.Link.{
  CompiledFunction, CompiledSourceFile, link_symbol, all_functions, flatten, flatten_to_bytes,
  same_name, lookup, register, found_or, relative_bytes, write_call, apply_patch, apply_patches,
  apply, apply_all, link_call_l_patches,
}
use neo_lang.Link.Table.{routine_start}
use neo_lang.Link.Lands.{link_call_l_patches-lands}
use neo_lang.Link.Script.{flatten_to_bytes-routine}
use neo_lang.Builder.{i32_bytes}
use neo_lang.Peephole.Slots.{load_slot}
use neo_lang.Peephole.Passes.{same_slot, merge_adjacent_duplicate_loads}
use neo_lang.Peephole.Loads.{
  Space, Frame, space, loaded, run_load, run_dup, merge_loads_same,
  merge_adjacent_duplicate_loads-mixed, run,
}
use neo_lang.Diagnostics.{location, line_starts}
use neo_lang.Diagnostics.Positions.{walk, location-walk}
use neo_lang.Cost.{opcode_cost, opcode_cost-short}
use neo_lang.Slots.{
  VarEnv, local, enter_block, exit_block, declare_local, declare_in, declare_fresh, resolve,
}
use neo_lang.Slots.Env
use neo_lang.Slots.Env.{
  live_slots, scope_slots, enter_block-IsWellFormed, declare_local-IsWellFormed,
  exit_block-declare_local,
}
use neo_lang.Peephole.Relayout.{
  relayout_one, relayout_operand, relayout_single, relayout_double, i8_operand, i32_operand,
  read_i32_le, operand_as_i8, prefix_byte_offsets, prefix_from, map_byte_offset_after_delete,
  map_byte_offset_after_strict_remove,
}
use neo_lang.Peephole.Passes.{
  Code, long_pc_branch_to_short_opcode, shortened, relayout_pc_relatives,
  try_shorten_long_pc_branch_at, delete_jump, optimize,
}
use neo_lang.Peephole.Targets.{targets, relayout_one-targets}
use neo_lang.Peephole.Shorten.{try_shorten-targets}
use neo_lang.Peephole.Jumps.{delete_jump-targets}
use neo_lang.Peephole.Calls.{CallsPatched, called}
use neo_lang.Peephole.Counts.{calls, calls_before}
use neo_lang.Peephole.Ends.{optimize_ends}
use neo_lang.Nef.FileRoundTrip.{extract_script-to_bytes}

push_int-value_example : int_value (push_int_instruction (negsuc 299)) ≡ some (negsuc 299)
push_int-value_example = push_int-value (negsuc 299) (omega arith)

-- A placeholder that is to jump over a `NOP`.
abbrev jump_over : List Instruction
jump_over =
    instruction OpCode.jmp_l (0 ∷ 0 ∷ 0 ∷ 0 ∷ [])
    ∷ instruction OpCode.nop []
    ∷ instruction OpCode.ret []
    ∷ []

patch_jmp_target-lands_example :
    (b' : List Instruction) × (i' : Instruction) × (patch_jmp_target_at_instruction jump_over 0 6
      ≡ some b')
    × (get_elem? b' 0 ≡ some i')
    × (i'.opcode ≡ OpCode.jmp_l)
    × (long_target (bytecode_offset_of b' 0) i' ≡ some 6)
    × (bytecode_offset_of b' 2 ≡ bytecode_offset_of jump_over 2)
    × (get_elem? b' 2 ≡ get_elem? jump_over 2)
unfolding bytecode_offset_of bytecode_len encoded_len
patch_jmp_target-lands_example =
    patch_jmp_target-lands jump_over 0 6 2 (instruction OpCode.jmp_l (0 ∷ 0 ∷ 0 ∷ 0 ∷ [])) refl refl
      (omega arith) (λ e. absurd (omega arith))

decode_script-encode_example : decode_script by_search (encode jump_over) ≡ ok jump_over
unfolding shape
decode_script-encode_example = decode_script-encode by_search jump_over (refl, (refl, (refl, tt)))

encode-decode_script_example : encode jump_over ≡ encode jump_over
encode-decode_script_example =
    encode-decode_script by_search (encode jump_over) jump_over decode_script-encode_example

read_var_int-reads_example :
    read_var_int (7 ∷ (var_int 0x1_0000 ++ 9 ∷ [])) 1 ≡ ok (0x1_0000, 1 + length (var_int 0x1_0000))
read_var_int-reads_example =
    read_var_int-reads (7 ∷ (var_int 0x1_0000 ++ 9 ∷ [])) (9 ∷ []) 1 0x1_0000 refl (omega arith)

read_var_bytes-reads_example :
    read_var_bytes (7 ∷ (var_bytes (1 ∷ 2 ∷ []) ++ 9 ∷ [])) 1
    ≡ ok (1 ∷ 2 ∷ [], 1 + length (var_bytes (1 ∷ 2 ∷ [])))
unfolding var_bytes var_int write_var_int
read_var_bytes-reads_example =
    read_var_bytes-reads (7 ∷ (var_bytes (1 ∷ 2 ∷ []) ++ 9 ∷ [])) (1 ∷ 2 ∷ []) (9 ∷ []) 1 refl
      (omega arith)

-- A file with a short script, under a checksum that counts the bytes.
abbrev small_file : Nef3
small_file = record {
  magic = nef_magic;
  compiler = replicate 64 1;
  source = [];
  tokens = [];
  script = 0x11 ∷ 0x40 ∷ [];
}

extract_script-to_bytes_example :
    extract_script (λ b. length b) (File.to_bytes (λ b. length b) small_file)
    ≡ ok (0x11 ∷ 0x40 ∷ [])
unfolding File.to_bytes body_bytes write_var_bytes write_var_int File.encode_tokens to_le_bytes
extract_script-to_bytes_example =
    extract_script-to_bytes (λ b. length b) small_file (record { magic = refl; compiler = refl })
      refl (omega arith) (omega arith)

abbrev transfer : MethodToken
transfer = record {
  hash = 1 ∷ 2 ∷ [];
  method = 0x74 ∷ [];
  parameters_count = 4;
  has_return_value = true;
  call_flags = 15;
}

abbrev balance_of : MethodToken
balance_of = record transfer { method = 0x62 ∷ []; parameters_count = 1 }

abbrev one_token : MethodTokenRegistry
one_token = record { tokens = transfer ∷ []; index = (transfer, 0) ∷ [] }

abbrev two_tokens : MethodTokenRegistry
two_tokens = record {
  tokens = transfer ∷ balance_of ∷ [];
  index = (balance_of, 1) ∷ (transfer, 0) ∷ [];
}

one_token-IsConsistent : IsConsistent one_token
unfolding grown find
one_token-IsConsistent = grown-IsConsistent empty_registry transfer empty-IsConsistent refl

intern-IsConsistent_example :
    IsConsistent two_tokens
    × (get_elem? two_tokens.tokens 1 ≡ some balance_of)
    × (find balance_of two_tokens.index ≡ some 1)
    × (take 1 two_tokens.tokens ≡ transfer ∷ [])
unfolding intern find MethodToken-discrete ℕ_discrete
intern-IsConsistent_example =
    intern-IsConsistent one_token balance_of one_token-IsConsistent two_tokens 1 refl

intern-err_iff_example :
    (intern one_token balance_of ≡ err limit_exceeded)
    ↔ (find balance_of one_token.index ≡ none) × (0x1_0000 ≤ length one_token.tokens)
intern-err_iff_example = intern-err_iff one_token balance_of

relayout_one-targets_example :
    (OpCode.jmp_l ≡ OpCode.jmp_l)
    × ◌≡◌ {A = ℕ} 4 4
    × (targets 7 (instruction OpCode.jmp_l (3 ∷ 0 ∷ 0 ∷ 0 ∷ []))
        ≡ map
            (λ t. t >>=? λ p. some (p + 2))
            (targets 5 (instruction OpCode.jmp_l (3 ∷ 0 ∷ 0 ∷ 0 ∷ []))))
unfolding relayout_one relayout_operand relayout_single relayout_double i8_operand i32_operand
    read_i32_le operand_as_i8 is_change_pc_short is_change_pc_long is_jump is_jump_short
    is_jump_long of_bits to_bits from_le_bytes to_le_bytes ◌==op◌ byte
relayout_one-targets_example =
    relayout_one-targets (λ p. some (p + 2)) 5 7 (instruction OpCode.jmp_l (3 ∷ 0 ∷ 0 ∷ 0 ∷ []))
      (instruction OpCode.jmp_l (3 ∷ 0 ∷ 0 ∷ 0 ∷ [])) refl

-- A jump over a `NOP`, in its long form and in its short one.
abbrev long_jump : List Instruction
long_jump =
    instruction OpCode.jmp_l (6 ∷ 0 ∷ 0 ∷ 0 ∷ [])
    ∷ instruction OpCode.nop []
    ∷ instruction OpCode.ret []
    ∷ []

abbrev short_jump : List Instruction
short_jump =
    instruction OpCode.jmp (3 ∷ []) ∷ instruction OpCode.nop [] ∷ instruction OpCode.ret [] ∷ []

try_shorten-targets_example :
    (b' : Instruction) × (get_elem? short_jump 0 ≡ some b')
    × (targets (bytecode_offset_of short_jump 0) b'
        ≡ map
            (λ t. t >>=? λ p.
              map_byte_offset_after_strict_remove p (bytecode_offset_of long_jump 0 + 2) 3)
            (targets
              (bytecode_offset_of long_jump 0)
              (instruction OpCode.jmp_l (6 ∷ 0 ∷ 0 ∷ 0 ∷ []))))
    × (map_byte_offset_after_strict_remove
          (bytecode_offset_of long_jump 2)
          (bytecode_offset_of long_jump 0 + 2)
          3
        ≡ some (bytecode_offset_of short_jump 2))
unfolding try_shorten_long_pc_branch_at long_pc_branch_to_short_opcode shortened
    map_byte_offset_after_strict_remove relayout_one relayout_operand relayout_single
    relayout_double i8_operand i32_operand read_i32_le operand_as_i8 is_change_pc_short
    is_change_pc_long is_jump is_jump_short is_jump_long of_bits to_bits from_le_bytes to_le_bytes
    ◌==op◌ byte relayout_pc_relatives prefix_byte_offsets prefix_from bytecode_offset_of
    bytecode_len encoded_len
try_shorten-targets_example =
    try_shorten-targets long_jump short_jump 0 0 2 (instruction OpCode.jmp_l (6 ∷ 0 ∷ 0 ∷ 0 ∷ []))
      (instruction OpCode.ret []) refl refl refl

-- A conditional jump over a jump to the next instruction.
abbrev through : Code
through = record {
  inst =
      instruction OpCode.jmpif_l (10 ∷ 0 ∷ 0 ∷ 0 ∷ [])
      ∷ instruction OpCode.jmp_l (5 ∷ 0 ∷ 0 ∷ 0 ∷ [])
      ∷ instruction OpCode.ret []
      ∷ [];
  patches = [];
}

abbrev without : List Instruction
without = instruction OpCode.jmpif_l (5 ∷ 0 ∷ 0 ∷ 0 ∷ []) ∷ instruction OpCode.ret [] ∷ []

delete_jump-targets_example :
    (b' : Instruction) × (get_elem? without 0 ≡ some b')
    × (b'.opcode ≡ OpCode.jmpif_l)
    × (targets (bytecode_offset_of without 0) b'
        ≡ map
            (λ t. t >>=? λ p.
              some (map_byte_offset_after_delete p (bytecode_offset_of through.inst 1) 5))
            (targets
              (bytecode_offset_of through.inst 0)
              (instruction OpCode.jmpif_l (10 ∷ 0 ∷ 0 ∷ 0 ∷ []))))
    × (map_byte_offset_after_delete
          (bytecode_offset_of through.inst 2)
          (bytecode_offset_of through.inst 1)
          5
        ≡ bytecode_offset_of without 1)
    × (map_byte_offset_after_delete
          (bytecode_offset_of through.inst 1)
          (bytecode_offset_of through.inst 1)
          5
        ≡ bytecode_offset_of without 1)
unfolding delete_jump map_byte_offset_after_delete relayout_one relayout_operand relayout_single
    relayout_double i8_operand i32_operand read_i32_le operand_as_i8 is_change_pc_short
    is_change_pc_long is_jump is_jump_short is_jump_long of_bits to_bits from_le_bytes to_le_bytes
    ◌==op◌ byte relayout_pc_relatives prefix_byte_offsets prefix_from bytecode_offset_of
    bytecode_len encoded_len
delete_jump-targets_example =
    delete_jump-targets through 1 (instruction OpCode.jmp_l (5 ∷ 0 ∷ 0 ∷ 0 ∷ [])) without refl refl
      0 1 (instruction OpCode.jmpif_l (10 ∷ 0 ∷ 0 ∷ 0 ∷ [])) (instruction OpCode.ret []) refl refl

-- A call without a patch, and a pair that goes in front of the call with one.
abbrev calling : Code
calling = record {
  inst =
      instruction OpCode.call_l (1 ∷ 0 ∷ 0 ∷ 0 ∷ [])
      ∷ instruction OpCode.dup []
      ∷ instruction OpCode.drop []
      ∷ instruction OpCode.call_l (0 ∷ 0 ∷ 0 ∷ 0 ∷ [])
      ∷ [];
  patches = (3, 0x66 ∷ []) ∷ [];
}

optimize_ends_example :
    (c' : Code) × (optimize calling ≡ some c')
    × CallsPatched c'
    × (called c'.inst c'.patches ≡ (1, 0x66 ∷ []) ∷ [])
    × (calls c'.inst ≡ 2)
unfolding calls calls_before ◌==op◌ byte
optimize_ends_example = optimize_ends calling (
  record {
    site = instruction OpCode.call_l (0 ∷ 0 ∷ 0 ∷ 0 ∷ []);
    at_index = refl;
    is_call_l = refl;
    four = refl;
  },
  tt,
)

is_jump_long-is_jump_example : is_jump_long OpCode.jmpif ≡ is_jump OpCode.jmpif
is_jump_long-is_jump_example = is_jump_long-is_jump OpCode.jmpif

-- A function that calls another one behind it.
abbrev caller : CompiledFunction
caller = record {
  name = 0x61 ∷ [];
  contract = none;
  instructions = instruction OpCode.call_l (0 ∷ 0 ∷ 0 ∷ 0 ∷ []) ∷ instruction OpCode.ret [] ∷ [];
  call_patches = (0, 0x43 ∷ 0x3a ∷ 0x3a ∷ 0x62 ∷ []) ∷ [];
}

abbrev callee : CompiledFunction
callee = record {
  name = 0x62 ∷ [];
  contract = some (0x43 ∷ []);
  instructions = instruction OpCode.ret [] ∷ [];
  call_patches = [];
}

abbrev linked_caller : CompiledFunction
linked_caller = record caller {
  instructions = instruction OpCode.call_l (6 ∷ 0 ∷ 0 ∷ 0 ∷ []) ∷ instruction OpCode.ret [] ∷ [];
  call_patches = [];
}

abbrev two_functions : CompiledSourceFile
two_functions = record {
  package_functions = caller ∷ [];
  struct_methods = [];
  contract_methods = callee ∷ [];
  method_tokens = [];
}

abbrev linked_file : CompiledSourceFile
linked_file = record two_functions { package_functions = linked_caller ∷ [] }

link_call_l_patches-lands_example :
    (f' : CompiledFunction) × (i' : Instruction) × (k : ℕ) × (g : CompiledFunction) × (get_elem?
        (all_functions linked_file)
        0
      ≡ some f')
    × (f'.call_patches ≡ [])
    × (get_elem? f'.instructions 0 ≡ some i')
    × (i'.opcode ≡ OpCode.call_l)
    × (get_elem? (all_functions two_functions) k ≡ some g)
    × (link_symbol g ≡ 0x43 ∷ 0x3a ∷ 0x3a ∷ 0x62 ∷ [])
    × (long_target
          (routine_start (all_functions linked_file) 0 + bytecode_offset_of f'.instructions 0)
          i'
        ≡ some (routine_start (all_functions linked_file) k))
unfolding link_call_l_patches register all_functions link_symbol lookup same_name found_or
    relative_bytes write_call apply_patch apply_patches apply apply_all i32_bytes bytecode_len
    bytecode_offset_of encoded_len to_bits to_le_bytes ◌==op◌ byte
link_call_l_patches-lands_example =
    link_call_l_patches-lands two_functions linked_file 0 0 caller
      (0, 0x43 ∷ 0x3a ∷ 0x3a ∷ 0x62 ∷ []) refl refl (tt, tt) refl

flatten_to_bytes-routine_example :
    drop (routine_start (all_functions linked_file) 1) (flatten_to_bytes linked_file)
    ≡ encode callee.instructions ++ flatten (drop 2 (all_functions linked_file))
unfolding all_functions
flatten_to_bytes-routine_example = flatten_to_bytes-routine linked_file 1 callee refl

-- A block in a function with the parameter `a`, where `x1` is declared.
abbrev outside : VarEnv
outside = record { args = (0x61 ∷ [], 0) ∷ []; scopes = [] ∷ []; next_local = 0 }

abbrev inside : VarEnv
inside = record outside { scopes = ((0x78 ∷ 0x31 ∷ [], 0) ∷ []) ∷ [] ∷ []; next_local = 1 }

outside-IsWellFormed : Env.IsWellFormed outside
unfolding live_slots scope_slots
outside-IsWellFormed = record { distinct = tt; limit = omega arith }

declare_local-IsWellFormed_example :
    Env.IsWellFormed inside
    × ◌≡◌ {A = ℕ} 0 0
    × ◌≡◌ {A = ℕ} 1 1
    × (resolve inside (0x78 ∷ 0x31 ∷ []) ≡ ok (local 0))
    × (resolve inside (0x61 ∷ []) ≡ resolve (enter_block outside) (0x61 ∷ []))
unfolding declare_local declare_in declare_fresh lookup enter_block live_slots scope_slots
declare_local-IsWellFormed_example =
    declare_local-IsWellFormed (enter_block outside) inside (0x78 ∷ 0x31 ∷ []) (0x61 ∷ []) 0
      (enter_block-IsWellFormed outside outside-IsWellFormed) refl
      (λ e. absurd (omega (arith, ap length e)))

exit_block-declare_local_example :
    resolve (exit_block inside) (0x78 ∷ 0x31 ∷ []) ≡ resolve outside (0x78 ∷ 0x31 ∷ [])
unfolding declare_local declare_in declare_fresh lookup enter_block
exit_block-declare_local_example =
    exit_block-declare_local outside inside (0x78 ∷ 0x31 ∷ []) (0x78 ∷ 0x31 ∷ []) 0
      outside-IsWellFormed refl

decode_script_ends_example :
    ((is : List Instruction) × (decode_script by_search (0x01 ∷ 0x02 ∷ []) ≡ ok is)
      × (encode is ≡ 0x01 ∷ 0x02 ∷ []))
    ⊎ ((e : DisasmError) × (decode_script by_search (0x01 ∷ 0x02 ∷ []) ≡ err e) × (e ≢ stuck))
decode_script_ends_example = decode_script_ends by_search (0x01 ∷ 0x02 ∷ [])

push_data-value_example :
    (i : Instruction) × (push_data_instruction (1 ∷ 2 ∷ []) ≡ some i)
    × (data_value i ≡ some (1 ∷ 2 ∷ []))
push_data-value_example = push_data-value (1 ∷ 2 ∷ []) (omega arith)

-- The local 0 is 5 and the argument 0 is 7.
abbrev five_seven : Space → ℕ → ℕ
five_seven Space.locals n = 5
five_seven Space.args n = 7

abbrev frame : Frame ℕ
frame = record { stack = []; slot = five_seven }

abbrev ldloc_0 : Instruction
ldloc_0 = instruction OpCode.ldloc0 []

abbrev ldloc_long : Instruction
ldloc_long = instruction OpCode.ldloc (0 ∷ [])

abbrev ldarg_0 : Instruction
ldarg_0 = instruction OpCode.ldarg0 []

merge_loads_same_example :
    (run_load frame (loaded ldloc_0) >>=? λ g. run_load g (loaded ldloc_long))
    ≡ (run_load frame (loaded ldloc_0) >>=? λ g. run_dup g g.stack)
unfolding same_slot load_slot space
merge_loads_same_example = merge_loads_same frame ldloc_0 ldloc_long refl refl

merge_adjacent_duplicate_loads-mixed_example :
    (g h : Frame ℕ) × (run frame (ldloc_0 ∷ ldarg_0 ∷ []) ≡ some g)
    × (run frame
          (merge_adjacent_duplicate_loads
            (record { inst = ldloc_0 ∷ ldarg_0 ∷ []; patches = [] })).0.inst
        ≡ some h)
    × (g.stack ≡ 7 ∷ 5 ∷ [])
    × (h.stack ≡ 5 ∷ 5 ∷ [])
    × (g ≢ h)
unfolding loaded
merge_adjacent_duplicate_loads-mixed_example =
    merge_adjacent_duplicate_loads-mixed frame ldloc_0 ldarg_0 Space.locals Space.args 0 refl refl
      (λ e. absurd (omega (arith, e)))

-- The offset 3 of two lines, `a` and `bc`, is at the `c`.
location-walk_example :
    location (line_starts (0x61 ∷ 0x0a ∷ 0x62 ∷ 0x63 ∷ [])) 3
    ≡ some (record { line = 2; column = 2 })
unfolding walk
location-walk_example = location-walk (0x61 ∷ 0x0a ∷ 0x62 ∷ 0x63 ∷ []) 3

opcode_cost-short_example : opcode_cost OpCode.jmpif ≡ opcode_cost OpCode.jmpif_l
unfolding long_pc_branch_to_short_opcode
opcode_cost-short_example = opcode_cost-short OpCode.jmpif_l OpCode.jmpif refl
