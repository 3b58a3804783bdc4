-- ===== src/Peephole/Slots.antt =====
-- Slots that an instruction loads or stores, and the patches of a function.
use neo_lang.Prelude.{
  ℕ, ◌+◌, ◌-◌, Bool, false, ◌&&◌, ◌||◌, Option, none, some, List, [], ◌∷◌, leb, ltb, if◌then◌else◌,
}
use neo_lang.OpCode.{OpCode}

-- The index of a `CALL_L` and the name of the routine that it calls.
abbrev pub Patch : Type 0
Patch = ℕ × List ℕ

unfoldable pub call_patch_touches_range : List Patch → ℕ → ℕ → Bool
call_patch_touches_range [] start len = false
call_patch_touches_range ((index, _) ∷ ps) start len =
    (leb start index && ltb index (start + len)) || call_patch_touches_range ps start len

-- The index of a patch after `count` instructions at `removed_at` have gone.
unfoldable pub shift_index : ℕ → ℕ → ℕ → ℕ
shift_index removed_at count index = if leb (removed_at + count) index then index - count else index

unfoldable pub shift_call_patches_after_remove : List Patch → ℕ → ℕ → List Patch
shift_call_patches_after_remove [] removed_at count = []
shift_call_patches_after_remove ((index, name) ∷ ps) removed_at count =
    (shift_index removed_at count index, name) ∷ shift_call_patches_after_remove ps removed_at count

unfoldable pub store_slot : OpCode → List ℕ → Option ℕ
store_slot OpCode.stloc0 _ = some 0
store_slot OpCode.stloc1 _ = some 1
store_slot OpCode.stloc2 _ = some 2
store_slot OpCode.stloc3 _ = some 3
store_slot OpCode.stloc4 _ = some 4
store_slot OpCode.stloc5 _ = some 5
store_slot OpCode.stloc6 _ = some 6
store_slot OpCode.stloc (n ∷ []) = some n
store_slot _ _ = none

unfoldable pub load_local_slot : OpCode → List ℕ → Option ℕ
load_local_slot OpCode.ldloc0 _ = some 0
load_local_slot OpCode.ldloc1 _ = some 1
load_local_slot OpCode.ldloc2 _ = some 2
load_local_slot OpCode.ldloc3 _ = some 3
load_local_slot OpCode.ldloc4 _ = some 4
load_local_slot OpCode.ldloc5 _ = some 5
load_local_slot OpCode.ldloc6 _ = some 6
load_local_slot OpCode.ldloc (n ∷ []) = some n
load_local_slot _ _ = none

unfoldable pub load_slot : OpCode → List ℕ → Option ℕ
load_slot OpCode.ldloc0 _ = some 0
load_slot OpCode.ldarg0 _ = some 0
load_slot OpCode.ldloc1 _ = some 1
load_slot OpCode.ldarg1 _ = some 1
load_slot OpCode.ldloc2 _ = some 2
load_slot OpCode.ldarg2 _ = some 2
load_slot OpCode.ldloc3 _ = some 3
load_slot OpCode.ldarg3 _ = some 3
load_slot OpCode.ldloc4 _ = some 4
load_slot OpCode.ldarg4 _ = some 4
load_slot OpCode.ldloc5 _ = some 5
load_slot OpCode.ldarg5 _ = some 5
load_slot OpCode.ldloc6 _ = some 6
load_slot OpCode.ldarg6 _ = some 6
load_slot OpCode.ldloc (n ∷ []) = some n
load_slot OpCode.ldarg (n ∷ []) = some n
load_slot _ _ = none
