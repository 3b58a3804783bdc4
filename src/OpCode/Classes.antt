-- ===== src/OpCode/Classes.antt =====
-- The classes of opcodes (`impl OpCode`): ranges of bytes, and the opcodes with a 1-byte or a
-- 4-byte offset.
use Prim.Native.Nat.{bit_and}
use neo_lang.Prelude.{◌≡◌, refl, Bool, ◌&&◌, ◌||◌, not, ◌==◌, leb}
use neo_lang.OpCode.{OpCode, byte, ◌==op◌}

abbrev between : OpCode → OpCode → OpCode → Bool
between first last op = leb (byte first) (byte op) && leb (byte op) (byte last)

unfoldable pub is_jump : OpCode → Bool
is_jump = between OpCode.jmp OpCode.jmple_l

unfoldable pub is_jump_short : OpCode → Bool
is_jump_short op = is_jump op && bit_and (byte op) 0x01 == 0

-- The source masks with 0x00.
unfoldable pub is_jump_long : OpCode → Bool
is_jump_long op = is_jump op && not (bit_and (byte op) 0x00 == 1)

unfoldable pub is_call : OpCode → Bool
is_call = between OpCode.call OpCode.call_l

unfoldable pub is_try : OpCode → Bool
is_try = between OpCode.try OpCode.try_l

unfoldable pub is_endtry : OpCode → Bool
is_endtry op = byte op == byte OpCode.endtry || byte op == byte OpCode.endtry_l

unfoldable pub is_endfinally : OpCode → Bool
is_endfinally op = byte op == byte OpCode.endfinally

unfoldable pub is_change_pc_short : OpCode → Bool
unfolding is_jump_short is_jump
is_change_pc_short op =
    is_jump_short op || op ==op OpCode.call || op ==op OpCode.try || op ==op OpCode.endtry

unfoldable pub is_change_pc_long : OpCode → Bool
unfolding is_jump_long is_jump
is_change_pc_long op =
    is_jump_long op || op ==op OpCode.call_l || op ==op OpCode.try_l || op ==op OpCode.endtry_l

-- Every jump counts as long, also one with a 1-byte offset.
pub is_jump_long-is_jump : (op : OpCode) → is_jump_long op ≡ is_jump op
unfolding is_jump_long is_jump byte
is_jump_long-is_jump OpCode.pushint8 = refl
is_jump_long-is_jump _ = refl
