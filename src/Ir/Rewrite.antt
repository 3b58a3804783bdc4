-- ===== src/Ir/Rewrite.antt =====
-- Replacing the references of an instruction and of a terminator (neo-compiler/src/ir/opt.rs). The
-- map of replacements is an association list in which the first match counts.
use neo_lang.Prelude.{ℕ, Option, none, some, List, [], ◌∷◌, ◌==◌, if◌then◌else◌, map}
use neo_lang.Ir.{ValueRef, value, param, Instr, Terminator}

unfoldable pub lookup_ref : List (ℕ × ValueRef) → ℕ → Option ValueRef
lookup_ref [] id = none
lookup_ref ((k, v) ∷ subst) id = if k == id then some v else lookup_ref subst id

unfoldable pub unwrap_or : Option ValueRef → ValueRef → ValueRef
unwrap_or (some found) v = found
unwrap_or none v = v

unfoldable pub rewrite : List (ℕ × ValueRef) → ValueRef → ValueRef
rewrite subst (value id) = unwrap_or (lookup_ref subst id) (value id)
rewrite subst (param id) = param id

unfoldable pub map_pairs :
    (ValueRef → ValueRef) → List (ValueRef × ValueRef) → List (ValueRef × ValueRef)
map_pairs f [] = []
map_pairs f ((k, v) ∷ pairs) = (f k, f v) ∷ map_pairs f pairs

-- Each reference `x` of the instruction becomes `f x`: the arms of the match.
unfoldable pub map_refs : (ValueRef → ValueRef) → Instr → Instr
map_refs f (Instr.const x) = Instr.const x
map_refs f (Instr.struct_field_get a x) = Instr.struct_field_get (f a) x
map_refs f (Instr.index_get a b) = Instr.index_get (f a) (f b)
map_refs f (Instr.size a) = Instr.size (f a)
map_refs f (Instr.keys a) = Instr.keys (f a)
map_refs f (Instr.values a) = Instr.values (f a)
map_refs f (Instr.has_key a b) = Instr.has_key (f a) (f b)
map_refs f (Instr.array_append a b) = Instr.array_append (f a) (f b)
map_refs f (Instr.array_pop a) = Instr.array_pop (f a)
map_refs f (Instr.clear_items a) = Instr.clear_items (f a)
map_refs f (Instr.remove a b) = Instr.remove (f a) (f b)
map_refs f (Instr.sub_str a b c) = Instr.sub_str (f a) (f b) (f c)
map_refs f (Instr.sqrt a) = Instr.sqrt (f a)
map_refs f (Instr.mod_mul a b c) = Instr.mod_mul (f a) (f b) (f c)
map_refs f (Instr.mod_pow a b c) = Instr.mod_pow (f a) (f b) (f c)
map_refs f (Instr.within a b c) = Instr.within (f a) (f b) (f c)
map_refs f (Instr.index_set a b c) = Instr.index_set (f a) (f b) (f c)
map_refs f (Instr.struct_field_set a x b) = Instr.struct_field_set (f a) x (f b)
map_refs f (Instr.unary x a) = Instr.unary x (f a)
map_refs f (Instr.binary x a b) = Instr.binary x (f a) (f b)
map_refs f (Instr.is_null a x) = Instr.is_null (f a) x
map_refs f (Instr.cast a x) = Instr.cast (f a) x
map_refs f (Instr.copy a) = Instr.copy (f a)
map_refs f (Instr.contract_storage_get x y) = Instr.contract_storage_get x y
map_refs f (Instr.contract_storage_put x y a) = Instr.contract_storage_put x y (f a)
map_refs f (Instr.contract_map_storage_get x y z a) = Instr.contract_map_storage_get x y z (f a)
map_refs f (Instr.contract_map_storage_put x y z a b) =
    Instr.contract_map_storage_put x y z (f a) (f b)
map_refs f (Instr.contract_map_storage_compound x y z a b w) =
    Instr.contract_map_storage_compound x y z (f a) (f b) w
map_refs f (Instr.contract_map_storage_has x y a) = Instr.contract_map_storage_has x y (f a)
map_refs f (Instr.contract_map_storage_remove x y a) = Instr.contract_map_storage_remove x y (f a)
map_refs f (Instr.builtin_call x args) = Instr.builtin_call x (map f args)
map_refs f (Instr.emit x args) = Instr.emit x (map f args)
map_refs f (Instr.package_call x args) = Instr.package_call x (map f args)
map_refs f (Instr.contract_method_call x y args) = Instr.contract_method_call x y (map f args)
map_refs f (Instr.struct_pack x args) = Instr.struct_pack x (map f args)
map_refs f (Instr.struct_call x y a args) = Instr.struct_call x y (f a) (map f args)
map_refs f (Instr.runtime_call x args) = Instr.runtime_call x (map f args)
map_refs f (Instr.extern_call x y args) = Instr.extern_call x y (map f args)
map_refs f (Instr.array_pack args) = Instr.array_pack (map f args)
map_refs f (Instr.map_pack pairs) = Instr.map_pack (map_pairs f pairs)
map_refs f (Instr.eval_ast x) = Instr.eval_ast x

unfoldable pub rewrite_value_refs_in_instr : List (ℕ × ValueRef) → Instr → Instr
rewrite_value_refs_in_instr subst instr = map_refs (rewrite subst) instr

unfoldable pub map_option_ref : (ValueRef → ValueRef) → Option ValueRef → Option ValueRef
map_option_ref f none = none
map_option_ref f (some v) = some (f v)

unfoldable pub map_term : (ValueRef → ValueRef) → Terminator → Terminator
map_term f Terminator.unset = Terminator.unset
map_term f (Terminator.return_ v) = Terminator.return_ (map_option_ref f v)
map_term f (Terminator.jump target args) = Terminator.jump target (map f args)
map_term f (Terminator.branch cond then_bb then_args else_bb else_args) =
    Terminator.branch (f cond) then_bb (map f then_args) else_bb (map f else_args)

unfoldable pub rewrite_value_refs_in_term : List (ℕ × ValueRef) → Terminator → Terminator
rewrite_value_refs_in_term subst term = map_term (rewrite subst) term
