-- ===== src/Ir/Graph.antt =====
-- A meaning for a function's graph of blocks: a block's exit chooses the next block and gives its
-- parameters their values. Which values count as true is a parameter.
use neo_lang.Prelude.{
  ℕ, zero, suc, ◌≡◌, refl, subst, inl, inr, Bool, Option, none, some, List, [], ◌∷◌, ◌==◌, ◌>>=?◌,
  if◌then◌else◌, length, take, drop, get_elem?, Option-cases, Bool-cases,
}
use mathlib.Core.Option.{some-injective}
use neo_lang.Ir.{value, param, Terminator, BasicBlock}
use neo_lang.Ir.Passes.{map_blocks}
use neo_lang.Ir.Meaning.{Env, Machine, Exit, run_block}

pub data Next (V : Type 0) : Type 0 where
  finished : List V → Next V
  goes : ℕ → List V → Next V
  stuck : Next V

unfoldable pub param_of : {V : Type 0} → Option V → V → V
param_of none v = v
param_of (some a) v = a

-- The values stay, the parameters are those of the next block.
unfoldable pub enter : {V : Type 0} → List V → Env V → Env V
unfolding param_of
enter args env (value id) = env (value id)
enter args env (param k) = param_of (get_elem? args k) (env (param k))

unfoldable pub find_block : List (ℕ × BasicBlock) → ℕ → Option BasicBlock
find_block [] id = none
find_block ((k, bb) ∷ blocks) id = if k == id then some bb else find_block blocks id

module _ {V : Type 0} (truth : V → Bool) where
  unfoldable pub leave : Exit V → Next V
  leave (Terminator.return_ v, vs) = finished vs
  leave (Terminator.jump target args, vs) = goes target vs
  leave (Terminator.branch cond then_bb then_args else_bb else_args, c ∷ vs) =
      if truth c
      then goes then_bb (take (length then_args) vs)
      else goes else_bb (drop (length then_args) vs)
  leave _ = stuck

module _ {V S : Type 0} (perform : Machine V S) (truth : V → Bool) where
  unfoldable pub continue_at :
      (ℕ → Env V → S → Option (List V × S)) → Next V → Env V → S → Option (List V × S)
  continue_at again (finished vs) env s = some (vs, s)
  continue_at again (goes id args) env s = again id (enter args env) s
  continue_at again stuck env s = none

  -- From a block on; `none` is a fault, or the end of the fuel.
  unfoldable pub run_from : ℕ → List (ℕ × BasicBlock) → ℕ → Env V → S → Option (List V × S)
  unfolding continue_at
  run_from zero blocks id env s = none
  run_from (suc fuel) blocks id env s =
      let again = run_from fuel blocks in
      find_block blocks id >>=? λ bb.
      run_block perform bb env s >>=? λ (x, (env', s')). continue_at again (leave truth x) env' s'

pub find_block-map_blocks :
    (f : BasicBlock → BasicBlock) (blocks : List (ℕ × BasicBlock)) (id : ℕ)
    → find_block (map_blocks f blocks) id ≡ (find_block blocks id >>=? λ bb. some (f bb))
unfolding find_block map_blocks
find_block-map_blocks f [] id = refl
find_block-map_blocks f ((k, bb) ∷ blocks) id = elim (Bool-cases (k == id)) [
  | inl e ↦ rw e refl
  | inr e ↦ rw e (find_block-map_blocks f blocks id)
]

abbrev pub AllBlocks : (BasicBlock → Type 0) → List (ℕ × BasicBlock) → Type 0
AllBlocks P [] = Unit
AllBlocks P ((id, bb) ∷ blocks) = P bb × AllBlocks P blocks

pub AllBlocks-map :
    (P Q : BasicBlock → Type 0) (blocks : List (ℕ × BasicBlock))
    → ((bb : BasicBlock) → P bb → Q bb)
    → AllBlocks P blocks
    → AllBlocks Q blocks
AllBlocks-map P Q [] f h = tt
AllBlocks-map P Q ((id, bb) ∷ blocks) f (h, hs) = (f bb h, AllBlocks-map P Q blocks f hs)

pub find_block-AllBlocks :
    (P : BasicBlock → Type 0) (blocks : List (ℕ × BasicBlock)) (id : ℕ) (bb : BasicBlock)
    → AllBlocks P blocks
    → find_block blocks id ≡ some bb
    → P bb
unfolding find_block
find_block-AllBlocks P [] id bb h e = absurd (cc)
find_block-AllBlocks P ((k, b) ∷ blocks) id bb (h, hs) e = elim (Bool-cases (k == id)) [
  | inl same ↦ subst P (some-injective b bb (rw same at e)) h
  | inr other ↦ find_block-AllBlocks P blocks id bb hs (rw other at e)
]

module _ {V S : Type 0} (perform : Machine V S) (truth : V → Bool) where
  continue_at-agree :
      (again again' : ℕ → Env V → S → Option (List V × S)) (next : Next V) (env : Env V) (s : S)
      → ((id : ℕ) (env' : Env V) (s' : S) → again id env' s' ≡ again' id env' s')
      → continue_at perform truth again next env s ≡ continue_at perform truth again' next env s
  unfolding continue_at
  continue_at-agree again again' (finished vs) env s h = refl
  continue_at-agree again again' (goes target args) env s h = h target (enter args env) s
  continue_at-agree again again' stuck env s h = refl

  -- A pass that keeps what each block does keeps what the function does.
  pub run_from-map_blocks :
      (f : BasicBlock → BasicBlock) (blocks : List (ℕ × BasicBlock))
      → AllBlocks
          (λ bb.
            (env : Env V) (s : S) → run_block perform (f bb) env s ≡ run_block perform bb env s)
          blocks
      → (fuel id : ℕ) (env : Env V) (s : S)
      → run_from perform truth fuel (map_blocks f blocks) id env s
        ≡ run_from perform truth fuel blocks id env s
  unfolding run_from
  run_from-map_blocks f blocks h zero id env s = refl
  run_from-map_blocks f blocks h (suc fuel) id env s = elim (Option-cases (find_block blocks id)) [
    | inl e ↦ rw (find_block-map_blocks f blocks id, e) refl
    | inr (bb, e) ↦
        let same = find_block-AllBlocks _ blocks id bb h e env s in
        rw (find_block-map_blocks f blocks id, e)
          (rw same (elim (Option-cases (run_block perform bb env s)) [
            | inl fault ↦ rw fault refl
            | inr ((x, (env', s')), done) ↦ rw done (
                continue_at-agree _ _ (leave truth x) env' s' (run_from-map_blocks f blocks h fuel))
          ]))
  ]
