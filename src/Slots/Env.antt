-- ===== src/Slots/Env.antt =====
-- Live variables have slots of their own, and a block's names end with it.
use neo_lang.Prelude.{
  subst, length, ℕ, ◌+◌, ◌≤◌, ◌<◌, ◌≡◌, ◌≢◌, refl, sym, ap, ◌∙◌, inl, inr, none, some, List, [],
  ◌∷◌, ◌++◌, arith, ◌==◌, ok, Bool-cases, Option-cases, eqb→ne, leb,
}
use neo_lang.Link.{lookup, same_name}
use neo_lang.Link.Table.{same_name→eq, same_name_refl}
use neo_lang.Slots.{
  VarEnv, pop, insert_args, new, enter_block, exit_block, alloc_slot, declare_fresh, declare_in,
  declare_local, resolve_in, resolve, local,
}

-- The slots of a scope, and those of all scopes from the innermost on.
unfoldable pub scope_slots : List (List ℕ × ℕ) → List ℕ
scope_slots [] = []
scope_slots ((_, slot) ∷ scope) = slot ∷ scope_slots scope

unfoldable pub live_slots : List (List (List ℕ × ℕ)) → List ℕ
unfolding scope_slots
live_slots [] = []
live_slots (scope ∷ scopes) = scope_slots scope ++ live_slots scopes

-- Each number is less than the one before, the first less than the bound: all are different.
abbrev pub DecreasesFrom : ℕ → List ℕ → Type 0
DecreasesFrom bound [] = Unit {0}
DecreasesFrom bound (slot ∷ slots) = (slot < bound) × DecreasesFrom slot slots

-- No two live variables share a slot, all slots are below the next one, which is a byte.
pub record IsWellFormed (env : VarEnv) : Type 0 where
  pub distinct : DecreasesFrom env.next_local (live_slots env.scopes)
  pub limit : env.next_local ≤ 0xff

DecreasesFrom-le :
    (a b : ℕ) (slots : List ℕ) → a ≤ b → DecreasesFrom a slots → DecreasesFrom b slots
DecreasesFrom-le a b [] le h = tt
DecreasesFrom-le a b (slot ∷ slots) le h = (omega (arith, h.0), h.1)

DecreasesFrom-append : (a : ℕ) (xs ys : List ℕ) → DecreasesFrom a (xs ++ ys) → DecreasesFrom a ys
DecreasesFrom-append a [] ys h = h
DecreasesFrom-append a (x ∷ xs) ys h =
    DecreasesFrom-le x a ys (omega (arith, h.0)) (DecreasesFrom-append x xs ys h.1)

-- A new environment, an opened or closed block and an anonymous slot keep the invariant.
pub enter_block-IsWellFormed : (env : VarEnv) → IsWellFormed env → IsWellFormed (enter_block env)
unfolding enter_block live_slots
enter_block-IsWellFormed env w = record { distinct = w.distinct; limit = w.limit }

popped :
    (bound : ℕ) (scopes : List (List (List ℕ × ℕ)))
    → DecreasesFrom bound (live_slots scopes)
    → DecreasesFrom bound (live_slots (pop scopes))
unfolding pop live_slots
popped bound [] h = h
popped bound (scope ∷ scopes) h =
    DecreasesFrom-append bound (scope_slots scope) (live_slots scopes) h

pub exit_block-IsWellFormed : (env : VarEnv) → IsWellFormed env → IsWellFormed (exit_block env)
unfolding exit_block live_slots
exit_block-IsWellFormed env w = record {
  distinct = popped env.next_local env.scopes w.distinct;
  limit = w.limit;
}

pub alloc_slot-IsWellFormed :
    (env env' : VarEnv) (slot : ℕ)
    → IsWellFormed env
    → alloc_slot env ≡ ok (env', slot)
    → IsWellFormed env' × (slot ≡ env.next_local) × (env'.next_local ≡ slot + 1)
unfolding alloc_slot
alloc_slot-IsWellFormed env env' slot w h = elim (Bool-cases (env.next_local == 0xff)) [
  | inl full ↦ let h' = rw full at h in absurd (cc)
  | inr room ↦
      let h' = rw room at h in
      let less = eqb→ne env.next_local 0xff room in
      let same : record env { next_local = env.next_local + 1 } ≡ env' = cc in
      let slot_is : env.next_local ≡ slot = cc in
      rw (← same, ← slot_is)
        (
          record {
            distinct =
                DecreasesFrom-le env.next_local (env.next_local + 1) (live_slots env.scopes)
                  (omega arith) w.distinct;
            limit = omega (arith, w.limit, less);
          },
          refl,
          refl,
        )
]

-- A declared local.
pub record Declared (env : VarEnv) (name : List ℕ) (env' : VarEnv) (slot : ℕ) : Type 0 where
  pub top : List (List ℕ × ℕ)
  pub outer : List (List (List ℕ × ℕ))
  pub below_limit : env.next_local < 0xff
  pub scopes_are : env.scopes ≡ top ∷ outer
  pub new_name : lookup top name ≡ none
  pub slot_is : env.next_local ≡ slot
  pub result :
      record env {
        scopes = ((name, env.next_local) ∷ top) ∷ outer;
        next_local = env.next_local + 1;
      }
      ≡ env'

declare_fresh-none :
    (env env' : VarEnv) (name : List ℕ) (top : List (List ℕ × ℕ)) (outer : List (List (List ℕ × ℕ)))
    (slot : ℕ)
    → declare_fresh env name top outer (lookup top name) ≡ ok (env', slot)
    → (lookup top name ≡ none) × (declare_fresh env name top outer none ≡ ok (env', slot))
declare_fresh-none env env' name top outer slot h = elim (Option-cases (lookup top name)) [
  | inl e ↦ (e, rw e at h)
  | inr (v, e) ↦ let h' = rw e at h in absurd (unfold declare_fresh in cc)
]

declare_in-Declared :
    (env env' : VarEnv) (name : List ℕ) (slot : ℕ) (scopes : List (List (List ℕ × ℕ)))
    → env.scopes ≡ scopes
    → env.next_local < 0xff
    → declare_in env name scopes ≡ ok (env', slot)
    → Declared env name env' slot
unfolding declare_in declare_fresh
declare_in-Declared env env' name slot [] e room h = absurd (cc)
declare_in-Declared env env' name slot (top ∷ outer) e room h =
    let (new_name, h') = declare_fresh-none env env' name top outer slot h in
    record {
      top = top;
      outer = outer;
      below_limit = room;
      scopes_are = e;
      new_name = new_name;
      slot_is = cc;
      result = cc;
    }

declare_local-Declared :
    (env env' : VarEnv) (name : List ℕ) (slot : ℕ)
    → IsWellFormed env
    → declare_local env name ≡ ok (env', slot)
    → Declared env name env' slot
unfolding declare_local
declare_local-Declared env env' name slot w h = elim (Bool-cases (env.next_local == 0xff)) [
  | inl full ↦ let h' = rw full at h in absurd (cc)
  | inr room ↦
      let less = eqb→ne env.next_local 0xff room in
      declare_in-Declared env env' name slot env.scopes refl (omega (arith, w.limit, less))
        (rw room at h)
]

lookup-pushed_self : (m : List (List ℕ × ℕ)) (k : List ℕ) (v : ℕ) → lookup ((k, v) ∷ m) k ≡ some v
unfolding lookup
lookup-pushed_self m k v = rw (same_name_refl k) refl

lookup-pushed_other :
    (m : List (List ℕ × ℕ)) (k s : List ℕ) (v : ℕ) → k ≢ s → lookup ((k, v) ∷ m) s ≡ lookup m s
unfolding lookup
lookup-pushed_other m k s v ne = elim (Bool-cases (same_name k s)) [
  | inl e ↦ absurd (ne (same_name→eq k s e))
  | inr e ↦ rw e refl
]

resolve_in-found :
    (args scope : List (List ℕ × ℕ)) (scopes : List (List (List ℕ × ℕ))) (name : List ℕ) (slot : ℕ)
    → lookup scope name ≡ some slot
    → resolve_in args (scope ∷ scopes) name ≡ ok (local slot)
unfolding resolve_in
resolve_in-found args scope scopes name slot h = rw (h, resolve_in) refl

resolve_in-same :
    (args a b : List (List ℕ × ℕ)) (scopes : List (List (List ℕ × ℕ))) (name : List ℕ)
    → lookup a name ≡ lookup b name
    → resolve_in args (a ∷ scopes) name ≡ resolve_in args (b ∷ scopes) name
unfolding resolve_in
resolve_in-same args a b scopes name h = rw (h, resolve_in) refl

module _ (env env' : VarEnv) (name other : List ℕ) (slot : ℕ) (w : IsWellFormed env)
    (h : declare_local env name ≡ ok (env', slot)) (differs : name ≢ other) where
  -- A declared local gets the next slot, which no live variable has; its name resolves to it and
  -- every other name as before.
  pub declare_local-IsWellFormed :
      IsWellFormed env'
      × (slot ≡ env.next_local)
      × (env'.next_local ≡ slot + 1)
      × (resolve env' name ≡ ok (local slot))
      × (resolve env' other ≡ resolve env other)
  unfolding resolve live_slots
  declare_local-IsWellFormed =
      let d = declare_local-Declared env env' name slot w h in
      let live = ap (λ t. DecreasesFrom env.next_local (live_slots t)) d.scopes_are in
      rw (← d.result, ← d.slot_is)
        (
          record {
            distinct = (
              omega arith,
              subst (λ t. DecreasesFrom env.next_local (live_slots t)) d.scopes_are w.distinct,
            );
            limit = omega (arith, d.below_limit);
          },
          refl,
          refl,
          resolve_in-found env.args ((name, env.next_local) ∷ d.top) d.outer name env.next_local
              (lookup-pushed_self d.top name env.next_local),
          resolve_in-same env.args ((name, env.next_local) ∷ d.top) d.top d.outer other
                (lookup-pushed_other d.top name other env.next_local differs)
              ∙ ap (λ t. resolve_in env.args t other) (sym d.scopes_are),
        )

-- A local declared in a block does not outlive it: behind the block every name resolves as in
-- front of it.
pub exit_block-declare_local :
    (env inner : VarEnv) (name other : List ℕ) (slot : ℕ)
    → IsWellFormed env
    → declare_local (enter_block env) name ≡ ok (inner, slot)
    → resolve (exit_block inner) other ≡ resolve env other
unfolding resolve exit_block enter_block pop
exit_block-declare_local env inner name other slot w h =
    let d =
      declare_local-Declared (enter_block env) inner name slot (enter_block-IsWellFormed env w) h in
    let shape : [] ∷ env.scopes ≡ d.top ∷ d.outer = d.scopes_are in
    let rest : env.scopes ≡ d.outer = cc in
    rw (← d.result) (ap (λ t. resolve_in env.args t other) (sym rest))

new-IsWellFormed : (params : List (List ℕ)) (env : VarEnv) → new params ≡ ok env → IsWellFormed env
unfolding new live_slots
new-IsWellFormed params env h = elim (Bool-cases (leb (length params) 0xff)) [
  | inr e ↦ let h' = rw e at h in absurd (cc)
  | inl e ↦
      let h' = rw e at h in
      let same : record { args = insert_args 0 [] params; scopes = [] ∷ []; next_local = 0 } ≡ env =
        cc in
      rw (← same) (record { distinct = tt; limit = omega arith })
]
