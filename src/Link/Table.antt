-- ===== src/Link/Table.antt =====
-- The table of offsets: each routine stands in it with the byte offset of its first instruction.
use neo_lang.Prelude.{
  ℕ, zero, suc, ◌+◌, ◌≡◌, refl, ap, ◌∙◌, ◌⊎◌, inl, inr, true, none, some, List, [], ◌∷◌, arith,
  ◌==◌, get_elem?, ok, Bool-cases, Option-cases, eqb→eq, eqb_refl,
}
use neo_lang.Instruction.{bytecode_len}
use neo_lang.Link.{CompiledFunction, link_symbol, same_name, lookup, register}

pub same_name→eq : (a b : List ℕ) → same_name a b ≡ true → a ≡ b
unfolding same_name
same_name→eq [] [] h = refl
same_name→eq [] (b ∷ t) h = absurd (cc)
same_name→eq (a ∷ s) [] h = absurd (cc)
same_name→eq (a ∷ s) (b ∷ t) h = elim (Bool-cases (a == b)) [
  | inl e ↦ let h' = rw e at h in let head = eqb→eq a b e in let tail = same_name→eq s t h' in cc
  | inr e ↦ let h' = rw e at h in absurd (cc)
]

pub same_name_refl : (a : List ℕ) → same_name a a ≡ true
unfolding same_name
same_name_refl [] = refl
same_name_refl (a ∷ s) = rw (eqb_refl a) (same_name_refl s)

-- The byte offset of the function at an index, in the script of all.
unfoldable pub routine_start : List CompiledFunction → ℕ → ℕ
routine_start [] k = 0
routine_start (f ∷ fs) zero = 0
routine_start (f ∷ fs) (suc k) = bytecode_len f.instructions + routine_start fs k

-- A registered function stays where it is.
register_step :
    (off : ℕ) (m m' : List (List ℕ × ℕ)) (f : CompiledFunction) (fs : List CompiledFunction)
    → register off m (f ∷ fs) ≡ ok m'
    → (lookup m (link_symbol f) ≡ none)
      × (register (off + bytecode_len f.instructions) ((link_symbol f, off) ∷ m) fs ≡ ok m')
unfolding register
register_step off m m' f fs h = elim (Option-cases (lookup m (link_symbol f))) [
  | inl e ↦ (e, rw (e, register) at h)
  | inr (v, e) ↦ let h' = rw (e, register) at h in absurd (cc)
]

lookup-cons :
    (m : List (List ℕ × ℕ)) (k s : List ℕ) (v pc : ℕ)
    → lookup ((k, v) ∷ m) s ≡ some pc
    → ((k ≡ s) × (v ≡ pc)) ⊎ (lookup m s ≡ some pc)
unfolding lookup
lookup-cons m k s v pc h = elim (Bool-cases (same_name k s)) [
  | inl e ↦ let h' = rw e at h in inl (same_name→eq k s e, cc)
  | inr e ↦ inr (rw e at h)
]

lookup-cons_other :
    (m : List (List ℕ × ℕ)) (k s : List ℕ) (v pc : ℕ)
    → lookup m k ≡ none
    → lookup m s ≡ some pc
    → lookup ((k, v) ∷ m) s ≡ some pc
unfolding lookup
lookup-cons_other m k s v pc free h = elim (Bool-cases (same_name k s)) [
  | inl e ↦ let same = same_name→eq k s e in let free' = rw same at free in absurd (cc)
  | inr e ↦ rw e h
]

lookup-cons_self : (m : List (List ℕ × ℕ)) (k : List ℕ) (v : ℕ) → lookup ((k, v) ∷ m) k ≡ some v
unfolding lookup
lookup-cons_self m k v = rw (same_name_refl k) refl

register_keeps :
    (off : ℕ) (m m' : List (List ℕ × ℕ)) (fs : List CompiledFunction) (s : List ℕ) (pc : ℕ)
    → register off m fs ≡ ok m'
    → lookup m s ≡ some pc
    → lookup m' s ≡ some pc
unfolding register
register_keeps off m m' [] s pc h at = let same : m ≡ m' = cc in rw (← same) at
register_keeps off m m' (f ∷ fs) s pc h at =
    let (free, rest) = register_step off m m' f fs h in
    register_keeps (off + bytecode_len f.instructions) ((link_symbol f, off) ∷ m) m' fs s pc rest
      (lookup-cons_other m (link_symbol f) s off pc free at)

pub register_finds :
    (off : ℕ) (m m' : List (List ℕ × ℕ)) (fs : List CompiledFunction) (k : ℕ) (f : CompiledFunction)
    → register off m fs ≡ ok m'
    → get_elem? fs k ≡ some f
    → lookup m' (link_symbol f) ≡ some (off + routine_start fs k)
unfolding routine_start
register_finds off m m' [] k f h at = absurd (cc)
register_finds off m m' (g ∷ fs) zero f h at =
    let (free, rest) = register_step off m m' g fs h in
    let same : g ≡ f = cc in
    let here : off ≡ off + 0 = omega arith in
    rw (← same, ← here)
      (register_keeps (off + bytecode_len g.instructions) ((link_symbol g, off) ∷ m) m' fs
        (link_symbol g) off rest (lookup-cons_self m (link_symbol g) off))
register_finds off m m' (g ∷ fs) (suc k) f h at =
    let (free, rest) = register_step off m m' g fs h in
    register_finds (off + bytecode_len g.instructions) ((link_symbol g, off) ∷ m) m' fs k f rest at
    ∙ ap some (omega arith)

-- What the table says of a name: a function of that name starts there.
pub register_sound :
    (off : ℕ) (m m' : List (List ℕ × ℕ)) (fs : List CompiledFunction) (s : List ℕ) (pc : ℕ)
    → register off m fs ≡ ok m'
    → lookup m' s ≡ some pc
    → (lookup m s ≡ some pc)
      ⊎ ((k : ℕ) × (g : CompiledFunction) × (get_elem? fs k ≡ some g)
          × (link_symbol g ≡ s)
          × (pc ≡ off + routine_start fs k))
unfolding register routine_start
register_sound off m m' [] s pc h at = let same : m ≡ m' = cc in inl (rw same at)
register_sound off m m' (f ∷ fs) s pc h at =
    let (free, rest) = register_step off m m' f fs h in
    elim (register_sound (off + bytecode_len f.instructions) ((link_symbol f, off) ∷ m) m' fs s pc
      rest at) [
        | inl old ↦ elim (lookup-cons m (link_symbol f) s off pc old) [
          | inl (named, here) ↦ inr (0, f, refl, named, omega arith)
          | inr older ↦ inl older
        ]
        | inr (k, g, there, named, start) ↦ inr (suc k, g, there, named, omega arith)
      ]
