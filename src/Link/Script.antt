-- ===== src/Link/Script.antt =====
-- The routines in the bytes of the script.
use neo_lang.Prelude.{
  ℕ, zero, suc, ◌≡◌, refl, sym, ap, ◌∙◌, some, List, [], ◌∷◌, ◌++◌, get_elem?, drop, drop-append,
  drop-drop, append_assoc,
}
use neo_lang.Instruction.{bytecode_len, encode}
use neo_lang.Instruction.Offsets.{length-encode}
use neo_lang.Link.{CompiledFunction, CompiledSourceFile, all_functions, flatten, flatten_to_bytes}
use neo_lang.Link.Table.{routine_start}

flatten-append : (fs gs : List CompiledFunction) → flatten (fs ++ gs) ≡ flatten fs ++ flatten gs
unfolding flatten
flatten-append [] gs = refl
flatten-append (f ∷ fs) gs =
    ap (λ t. encode f.instructions ++ t) (flatten-append fs gs)
    ∙ sym (append_assoc (encode f.instructions) (flatten fs) (flatten gs))

flatten-all_functions :
    (file : CompiledSourceFile) → flatten_to_bytes file ≡ flatten (all_functions file)
unfolding flatten_to_bytes all_functions
flatten-all_functions file = sym (
    flatten-append file.package_functions (file.struct_methods ++ file.contract_methods)
    ∙ ap (λ t. flatten file.package_functions ++ t)
        (flatten-append file.struct_methods file.contract_methods))

flatten-routine :
    (fs : List CompiledFunction) (k : ℕ) (f : CompiledFunction)
    → get_elem? fs k ≡ some f
    → drop (routine_start fs k) (flatten fs) ≡ encode f.instructions ++ flatten (drop (suc k) fs)
unfolding routine_start flatten
flatten-routine [] k f h = absurd (cc)
flatten-routine (g ∷ fs) zero f h =
    let same : g ≡ f = cc in ap (λ t. encode t.instructions ++ flatten fs) same
flatten-routine (g ∷ fs) (suc k) f h =
    drop-drop (encode g.instructions ++ flatten fs) (bytecode_len g.instructions)
      (routine_start fs k)
    ∙ ap (drop (routine_start fs k)) (
        ap (λ n. drop n (encode g.instructions ++ flatten fs)) (sym (length-encode g.instructions))
        ∙ drop-append (encode g.instructions) (flatten fs))
    ∙ flatten-routine fs k f h

-- In the bytes of a file, the code of the function at an index stands at its start, followed by
-- that of the functions behind it.
pub flatten_to_bytes-routine :
    (file : CompiledSourceFile) (k : ℕ) (f : CompiledFunction)
    → get_elem? (all_functions file) k ≡ some f
    → drop (routine_start (all_functions file) k) (flatten_to_bytes file)
      ≡ encode f.instructions ++ flatten (drop (suc k) (all_functions file))
flatten_to_bytes-routine file k f h =
    ap (drop (routine_start (all_functions file) k)) (flatten-all_functions file)
    ∙ flatten-routine (all_functions file) k f h
