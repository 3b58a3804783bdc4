-- ===== src/Ast/Types.antt =====
-- The types of the language (neo-compiler/src/syntax/ast.rs).
use neo_lang.Prelude.{Bool, true, false, ◌&&◌, ◌||◌}
use neo_lang.Link.{same_name}
use neo_lang.Ast.{LangType}

-- The derived equality.
unfoldable pub same_type : LangType → LangType → Bool
same_type LangType.void LangType.void = true
same_type LangType.bool LangType.bool = true
same_type LangType.int LangType.int = true
same_type LangType.string LangType.string = true
same_type LangType.hash160 LangType.hash160 = true
same_type LangType.hash256 LangType.hash256 = true
same_type LangType.buffer LangType.buffer = true
same_type LangType.any LangType.any = true
same_type (LangType.named a) (LangType.named b) = same_name a b
same_type (LangType.array a) (LangType.array b) = same_type a b
same_type (LangType.map k v) (LangType.map k' v') = same_type k k' && same_type v v'
same_type _ _ = false

unfoldable pub is_any : LangType → Bool
is_any LangType.any = true
is_any _ = false

unfoldable pub can_assign_to : LangType → LangType → Bool
can_assign_to from to = same_type from to || (is_any from || is_any to)

unfoldable pub is_valid_map_key_type : LangType → Bool
is_valid_map_key_type LangType.bool = true
is_valid_map_key_type LangType.int = true
is_valid_map_key_type LangType.string = true
is_valid_map_key_type LangType.hash160 = true
is_valid_map_key_type LangType.hash256 = true
is_valid_map_key_type _ = false

unfoldable pub is_primitive : LangType → Bool
is_primitive LangType.int = true
is_primitive LangType.bool = true
is_primitive LangType.string = true
is_primitive LangType.hash160 = true
is_primitive LangType.hash256 = true
is_primitive _ = false

unfoldable pub is_map : LangType → Bool
is_map (LangType.map k v) = true
is_map _ = false

unfoldable pub is_array : LangType → Bool
is_array (LangType.array t) = true
is_array _ = false
