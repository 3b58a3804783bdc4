-- ===== src/Link/Lands.antt =====
-- After linking, every patched call goes to the first instruction of the routine it names.
use neo_lang.Prelude.{
  ℕ, zero, suc, ◌+◌, ◌≡◌, ◌≢◌, sym, ap, ◌∙◌, inl, inr, some, List, [], ◌∷◌, ◌++◌, arith, get_elem?,
  ok, length, All, >>=-eq-ok, length-set, take_all,
}
use neo_lang.OpCode.{OpCode}
use neo_lang.Instruction.{Instruction, bytecode_len, bytecode_offset_of}
use neo_lang.Builder.Patches.{long_target}
use neo_lang.Peephole.Slots.{Patch}
use neo_lang.Link.{
  CompiledFunction, CompiledSourceFile, link_symbol, all_functions, lookup, register, found_or,
  apply_patch, apply_patches, apply, apply_all, link_call_l_patches,
}
use neo_lang.Link.Table.{routine_start, register_finds, register_sound}
use neo_lang.Link.Patching.{
  called, found_or-ok, apply_patch-Patched, apply_patch-offsets, apply_patch-others,
  apply_patch-site, called-target,
}

-- No two patches name the same instruction.
abbrev pub SitesDistinct : List Patch → Type 0
SitesDistinct [] = Unit {0}
SitesDistinct (p ∷ ps) = All (λ q. q.0 ≢ p.0) ps × SitesDistinct ps

apply_patches-others :
    (m : List (List ℕ × ℕ)) (start : ℕ) (ps : List Patch) (is is' : List Instruction) (k : ℕ)
    → apply_patches m start is ps ≡ ok is'
    → All (λ q. q.0 ≢ k) ps
    → get_elem? is' k ≡ get_elem? is k
unfolding apply_patches
apply_patches-others m start [] is is' k h free =
    let same : is ≡ is' = cc in ap (λ t. get_elem? t k) (sym same)
apply_patches-others m start (p ∷ ps) is is' k h free =
    let (is1, one, rest) = >>=-eq-ok (apply_patch m start is p) _ h in
    apply_patches-others m start ps is1 is' k rest free.1
    ∙ apply_patch-others m start is p is1 (apply_patch-Patched m start is p is1 one) k free.0

apply_patches-offsets :
    (m : List (List ℕ × ℕ)) (start : ℕ) (ps : List Patch) (is is' : List Instruction) (k : ℕ)
    → apply_patches m start is ps ≡ ok is'
    → (bytecode_offset_of is' k ≡ bytecode_offset_of is k) × (length is' ≡ length is)
unfolding apply_patches
apply_patches-offsets m start [] is is' k h =
    let same : is ≡ is' = cc in (ap (λ t. bytecode_offset_of t k) (sym same), ap length (sym same))
apply_patches-offsets m start (p ∷ ps) is is' k h =
    let (is1, one, rest) = >>=-eq-ok (apply_patch m start is p) _ h in
    let (off, len) = apply_patches-offsets m start ps is1 is' k rest in
    let s = apply_patch-Patched m start is p is1 one in
    (
      off ∙ apply_patch-offsets m start is p is1 s k,
      len ∙ ap length (sym s.result) ∙ length-set is p.0 _,
    )

pub bytecode_len-offset :
    (is : List Instruction) → bytecode_offset_of is (length is) ≡ bytecode_len is
unfolding bytecode_offset_of
bytecode_len-offset is = ap bytecode_len (take_all (length is) is (omega arith))

-- What the patches of a routine do: the site of each is a `CALL_L` to the offset of its name.
apply_patches-lands :
    (m : List (List ℕ × ℕ)) (start : ℕ) (ps : List Patch) (is is' : List Instruction) (j : ℕ)
    (p : Patch)
    → apply_patches m start is ps ≡ ok is'
    → SitesDistinct ps
    → get_elem? ps j ≡ some p
    → (pc : ℕ) × (i' : Instruction) × (lookup m p.1 ≡ some pc)
      × (get_elem? is' p.0 ≡ some i')
      × (i'.opcode ≡ OpCode.call_l)
      × (long_target (start + bytecode_offset_of is' p.0) i' ≡ some pc)
unfolding apply_patches
apply_patches-lands m start [] is is' j p h d at = absurd (cc)
apply_patches-lands m start (q ∷ ps) is is' zero p h d at =
    let same : q ≡ p = cc in
    let (is1, one, rest) = >>=-eq-ok (apply_patch m start is q) _ h in
    let s = apply_patch-Patched m start is q is1 one in
    let (off, _) = apply_patches-offsets m start ps is1 is' q.0 rest in
    let moved = off ∙ apply_patch-offsets m start is q is1 s q.0 in
    rw (← same) (
      s.target_pc,
      called m start is q is1 s,
      s.target_found,
      apply_patches-others m start ps is1 is' q.0 rest d.0 ∙ apply_patch-site m start is q is1 s,
      s.is_call_l,
      ap (λ o. long_target (start + o) (called m start is q is1 s)) moved
          ∙ called-target m start is q is1 s,
    )
apply_patches-lands m start (q ∷ ps) is is' (suc j) p h d at =
    let (is1, one, rest) = >>=-eq-ok (apply_patch m start is q) _ h in
    apply_patches-lands m start ps is1 is' j p rest d.1 at

-- A linked function: its place in the table, and its patches applied.
abbrev Applied : List (List ℕ × ℕ) → CompiledFunction → CompiledFunction → Type 0
Applied m f f' =
    (start : ℕ) × (lookup m (link_symbol f) ≡ some start)
    × (apply_patches m start f.instructions f.call_patches ≡ ok f'.instructions)
    × (f'.call_patches ≡ [])
    × (bytecode_len f'.instructions ≡ bytecode_len f.instructions)

apply-Applied :
    (m : List (List ℕ × ℕ)) (f f' : CompiledFunction) → apply m f ≡ ok f' → Applied m f f'
unfolding apply
apply-Applied m f f' h =
    let (start, found, h1) = >>=-eq-ok (found_or (lookup m (link_symbol f)) _) _ h in
    let (is, patched, h2) = >>=-eq-ok (apply_patches m start f.instructions f.call_patches) _ h1 in
    let same : record f { instructions = is; call_patches = [] } ≡ f' = cc in
    let shape : is ≡ f'.instructions = ap (λ g. g.instructions) same in
    let (off, len) =
      apply_patches-offsets m start f.call_patches f.instructions is (length is) patched in
    (
      start,
      found_or-ok _ _ start found,
      patched ∙ ap ok shape,
      ap (λ g. g.call_patches) (sym same),
      ap bytecode_len (sym shape)
          ∙ sym (bytecode_len-offset is)
          ∙ off
          ∙ ap (bytecode_offset_of f.instructions) len
          ∙ bytecode_len-offset f.instructions,
    )

apply_all-at :
    (m : List (List ℕ × ℕ)) (fs fs' : List CompiledFunction) (k : ℕ) (f : CompiledFunction)
    → apply_all m fs ≡ ok fs'
    → get_elem? fs k ≡ some f
    → (f' : CompiledFunction) × (get_elem? fs' k ≡ some f') × Applied m f f'
unfolding apply_all
apply_all-at m [] fs' k f h at = absurd (cc)
apply_all-at m (g ∷ fs) fs' zero f h at =
    let (g', one, h1) = >>=-eq-ok (apply m g) _ h in
    let (gs, more, h2) = >>=-eq-ok (apply_all m fs) _ h1 in
    let shape : g' ∷ gs ≡ fs' = cc in
    let same : g ≡ f = cc in
    (g', ap (λ t. get_elem? t 0) (sym shape), apply-Applied m f g' (ap (apply m) (sym same) ∙ one))
apply_all-at m (g ∷ fs) fs' (suc k) f h at =
    let (g', one, h1) = >>=-eq-ok (apply m g) _ h in
    let (gs, more, h2) = >>=-eq-ok (apply_all m fs) _ h1 in
    let shape : g' ∷ gs ≡ fs' = cc in
    let (f', there, done) = apply_all-at m fs gs k f more at in
    (f', ap (λ t. get_elem? t (suc k)) (sym shape) ∙ there, done)

apply_all-start :
    (m : List (List ℕ × ℕ)) (fs fs' : List CompiledFunction) (k : ℕ)
    → apply_all m fs ≡ ok fs'
    → routine_start fs' k ≡ routine_start fs k
unfolding apply_all routine_start
apply_all-start m [] fs' k h = let same : [] ≡ fs' = cc in ap (λ t. routine_start t k) (sym same)
apply_all-start m (g ∷ fs) fs' zero h =
    let (g', one, h1) = >>=-eq-ok (apply m g) _ h in
    let (gs, more, h2) = >>=-eq-ok (apply_all m fs) _ h1 in
    let shape : g' ∷ gs ≡ fs' = cc in ap (λ t. routine_start t 0) (sym shape)
apply_all-start m (g ∷ fs) fs' (suc k) h =
    let (g', one, h1) = >>=-eq-ok (apply m g) _ h in
    let (gs, more, h2) = >>=-eq-ok (apply_all m fs) _ h1 in
    let shape : g' ∷ gs ≡ fs' = cc in
    let (_, _, _, _, len) = apply-Applied m g g' one in
    ap (λ t. routine_start t (suc k)) (sym shape)
    ∙ omega (arith, len, apply_all-start m fs gs k more)

apply_all-append :
    (m : List (List ℕ × ℕ)) (xs xs' ys ys' : List CompiledFunction)
    → apply_all m xs ≡ ok xs'
    → apply_all m ys ≡ ok ys'
    → apply_all m (xs ++ ys) ≡ ok (xs' ++ ys')
unfolding apply_all
apply_all-append m [] xs' ys ys' hx hy =
    let same : [] ≡ xs' = cc in hy ∙ ap (λ t. ok (t ++ ys')) same
apply_all-append m (f ∷ fs) xs' ys ys' hx hy =
    let (g, one, h1) = >>=-eq-ok (apply m f) _ hx in
    let (gs, more, h2) = >>=-eq-ok (apply_all m fs) _ h1 in
    let shape : g ∷ gs ≡ xs' = cc in
    rw one (rw (apply_all-append m fs gs ys ys' more hy) (ap (λ t. ok (t ++ ys')) shape))

-- The routines of a linked file.
linked :
    (file file' : CompiledSourceFile)
    → link_call_l_patches file ≡ ok file'
    → (m : List (List ℕ × ℕ)) × (register 0 [] (all_functions file) ≡ ok m)
      × (apply_all m (all_functions file) ≡ ok (all_functions file'))
unfolding link_call_l_patches all_functions
linked file file' h =
    let (m, table, h1) = >>=-eq-ok (register 0 [] (all_functions file)) _ h in
    let (ps, hp, h2) = >>=-eq-ok (apply_all m file.package_functions) _ h1 in
    let (ss, hs, h3) = >>=-eq-ok (apply_all m file.struct_methods) _ h2 in
    let (cs, hc, h4) = >>=-eq-ok (apply_all m file.contract_methods) _ h3 in
    let same : record file { package_functions = ps; struct_methods = ss; contract_methods = cs }
        ≡ file' =
      cc in
    (
      m,
      table,
      apply_all-append m file.package_functions ps _ _ hp
            (apply_all-append m file.struct_methods ss _ cs hs hc)
          ∙ ap (λ g. ok (all_functions g)) same,
    )

named_routine :
    (m : List (List ℕ × ℕ)) (fs : List CompiledFunction) (s : List ℕ) (pc : ℕ)
    → register 0 [] fs ≡ ok m
    → lookup m s ≡ some pc
    → (k : ℕ) × (g : CompiledFunction) × (get_elem? fs k ≡ some g)
      × (link_symbol g ≡ s)
      × (pc ≡ 0 + routine_start fs k)
unfolding lookup
named_routine m fs s pc table found = elim (register_sound 0 [] m fs s pc table found) [
  | inl empty ↦ absurd (cc)
  | inr r ↦ r
]

-- Where linking succeeds, the site of each patch of a function no two of whose patches name the same
-- instruction is a `CALL_L` whose target is the start of a routine with the patch's name, and the
-- function has no patches left.
pub link_call_l_patches-lands :
    (file file' : CompiledSourceFile) (k j : ℕ) (f : CompiledFunction) (p : Patch)
    → link_call_l_patches file ≡ ok file'
    → get_elem? (all_functions file) k ≡ some f
    → SitesDistinct f.call_patches
    → get_elem? f.call_patches j ≡ some p
    → (f' : CompiledFunction) × (i' : Instruction) × (callee : ℕ) × (g : CompiledFunction)
      × (get_elem? (all_functions file') k ≡ some f')
      × (f'.call_patches ≡ [])
      × (get_elem? f'.instructions p.0 ≡ some i')
      × (i'.opcode ≡ OpCode.call_l)
      × (get_elem? (all_functions file) callee ≡ some g)
      × (link_symbol g ≡ p.1)
      × (long_target
            (routine_start (all_functions file') k + bytecode_offset_of f'.instructions p.0)
            i'
          ≡ some (routine_start (all_functions file') callee))
link_call_l_patches-lands file file' k j f p h at d patch =
    let (m, table, applied) = linked file file' h in
    let (f', there, (start, own, patched, cleared, _)) =
      apply_all-at m (all_functions file) (all_functions file') k f applied at in
    let here = register_finds 0 [] m (all_functions file) k f table at in
    let begins : start ≡ routine_start (all_functions file') k =
      let same : start ≡ 0 + routine_start (all_functions file) k = cc in
      omega (arith, same, apply_all-start m (all_functions file) (all_functions file') k applied) in
    let (pc, i', target, site, op, lands) =
      apply_patches-lands m start f.call_patches f.instructions f'.instructions j p patched d
        patch in
    let (callee, g, named_at, named, begin) =
      named_routine m (all_functions file) p.1 pc table target in
    let final : pc ≡ routine_start (all_functions file') callee =
      omega (arith, apply_all-start m (all_functions file) (all_functions file') callee applied) in
    (
      f',
      i',
      callee,
      g,
      there,
      cleared,
      site,
      op,
      named_at,
      named,
      ap (λ n. long_target (n + bytecode_offset_of f'.instructions p.0) i') (sym begins)
          ∙ lands
          ∙ ap some final,
    )
