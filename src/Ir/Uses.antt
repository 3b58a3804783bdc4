-- ===== src/Ir/Uses.antt =====
-- The values that an instruction and a terminator use (neo-compiler/src/ir/opt.rs).
use neo_lang.Prelude.{ℕ, Option, none, some, List, [], ◌∷◌, ◌++◌}
use neo_lang.Ir.{ValueRef, value, param, Instr, Terminator}

unfoldable pub pair_refs : List (ValueRef × ValueRef) → List ValueRef
pair_refs [] = []
pair_refs ((k, v) ∷ pairs) = k ∷ v ∷ pair_refs pairs

-- The references of an instruction, in the order in which the arms of the match visit them.
unfoldable pub operands : Instr → List ValueRef
operands (Instr.const _) = []
operands (Instr.struct_field_get a _) = a ∷ []
operands (Instr.index_get a b) = a ∷ b ∷ []
operands (Instr.size a) = a ∷ []
operands (Instr.keys a) = a ∷ []
operands (Instr.values a) = a ∷ []
operands (Instr.has_key a b) = a ∷ b ∷ []
operands (Instr.array_append a b) = a ∷ b ∷ []
operands (Instr.array_pop a) = a ∷ []
operands (Instr.clear_items a) = a ∷ []
operands (Instr.remove a b) = a ∷ b ∷ []
operands (Instr.sub_str a b c) = a ∷ b ∷ c ∷ []
operands (Instr.sqrt a) = a ∷ []
operands (Instr.mod_mul a b c) = a ∷ b ∷ c ∷ []
operands (Instr.mod_pow a b c) = a ∷ b ∷ c ∷ []
operands (Instr.within a b c) = a ∷ b ∷ c ∷ []
operands (Instr.index_set a b c) = a ∷ b ∷ c ∷ []
operands (Instr.struct_field_set a _ b) = a ∷ b ∷ []
operands (Instr.unary _ a) = a ∷ []
operands (Instr.binary _ a b) = a ∷ b ∷ []
operands (Instr.is_null a _) = a ∷ []
operands (Instr.cast a _) = a ∷ []
operands (Instr.copy a) = a ∷ []
operands (Instr.contract_storage_get _ _) = []
operands (Instr.contract_storage_put _ _ a) = a ∷ []
operands (Instr.contract_map_storage_get _ _ _ a) = a ∷ []
operands (Instr.contract_map_storage_put _ _ _ a b) = a ∷ b ∷ []
operands (Instr.contract_map_storage_compound _ _ _ a b _) = a ∷ b ∷ []
operands (Instr.contract_map_storage_has _ _ a) = a ∷ []
operands (Instr.contract_map_storage_remove _ _ a) = a ∷ []
operands (Instr.builtin_call _ args) = args
operands (Instr.emit _ args) = args
operands (Instr.package_call _ args) = args
operands (Instr.contract_method_call _ _ args) = args
operands (Instr.struct_pack _ args) = args
operands (Instr.struct_call _ _ a args) = a ∷ args
operands (Instr.runtime_call _ args) = args
operands (Instr.extern_call _ _ args) = args
operands (Instr.array_pack args) = args
operands (Instr.map_pack pairs) = pair_refs pairs
operands (Instr.eval_ast _) = []

-- A parameter is not pushed.
unfoldable pub value_ids : List ValueRef → List ℕ
value_ids [] = []
value_ids (value x ∷ refs) = x ∷ value_ids refs
value_ids (param x ∷ refs) = value_ids refs

-- What is pushed at the back of the queue.
unfoldable pub collect_uses_in_instr : Instr → List ℕ
collect_uses_in_instr instr = value_ids (operands instr)

unfoldable pub option_refs : Option ValueRef → List ValueRef
option_refs none = []
option_refs (some v) = v ∷ []

unfoldable pub term_refs : Terminator → List ValueRef
term_refs Terminator.unset = []
term_refs (Terminator.return_ v) = option_refs v
term_refs (Terminator.jump target args) = args
term_refs (Terminator.branch cond then_bb then_args else_bb else_args) =
    cond ∷ (then_args ++ else_args)

unfoldable pub collect_uses_in_term : Terminator → List ℕ
collect_uses_in_term term = value_ids (term_refs term)
