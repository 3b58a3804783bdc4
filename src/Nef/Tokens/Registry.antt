-- ===== src/Nef/Tokens/Registry.antt =====
-- The registry stays consistent: its map and its list are inverse to each other.
use mathlib.Core.Path.{subst}
use neo_lang.Prelude.{
  ℕ, zero, suc, ◌≤◌, ◌≡◌, ◌↔◌, refl, sym, ap, ◌∙◌, ◌⊎◌, inl, inr, none, some, List, [], ◌∷◌, ◌++◌,
  arith, leb, length, get_elem?, take, take_all, take-append, ok, err, Option-cases, Bool-cases,
  false,
}
use neo_lang.Nef.Tokens.{
  MethodToken, MethodToken-discrete, MethodTokenRegistry, limit_exceeded, find, intern, intern_new,
  empty_registry,
}

-- The map sends a token to its index in the list, and every token of the list is in the map.
pub record IsConsistent (r : MethodTokenRegistry) : Type 0 where
  pub listed : (t : MethodToken) (i : ℕ) → find t r.index ≡ some i → get_elem? r.tokens i ≡ some t
  pub indexed : (t : MethodToken) (i : ℕ) → get_elem? r.tokens i ≡ some t → find t r.index ≡ some i

pub get_elem?-push_old {ℓ} :
    {A : Type ℓ} (xs : List A) (a : A) (i : ℕ) {b : A}
    → get_elem? xs i ≡ some b
    → get_elem? (xs ++ a ∷ []) i ≡ some b
get_elem?-push_old [] a i h = absurd (cc)
get_elem?-push_old (x ∷ xs) a zero h = h
get_elem?-push_old (x ∷ xs) a (suc i) h = get_elem?-push_old xs a i h

pub get_elem?-push_new {ℓ} :
    {A : Type ℓ} (xs : List A) (a : A) → get_elem? (xs ++ a ∷ []) (length xs) ≡ some a
get_elem?-push_new [] a = refl
get_elem?-push_new (x ∷ xs) a = get_elem?-push_new xs a

pub get_elem?-push {ℓ} :
    {A : Type ℓ} (xs : List A) (a : A) (i : ℕ) {b : A}
    → get_elem? (xs ++ a ∷ []) i ≡ some b
    → (get_elem? xs i ≡ some b) ⊎ ((i ≡ length xs) × (a ≡ b))
get_elem?-push [] a zero h = inr (refl, cc)
get_elem?-push [] a (suc i) h = absurd (cc)
get_elem?-push (x ∷ xs) a zero h = inl h
get_elem?-push (x ∷ xs) a (suc i) h = elim (get_elem?-push xs a i h) [
  | inl e ↦ inl e
  | inr (e, s) ↦ inr (ap suc e, s)
]

find_self : (t : MethodToken) (i : ℕ) (m : List (MethodToken × ℕ)) → find t ((t, i) ∷ m) ≡ some i
unfolding find
find_self t i m =
    elim (MethodToken-discrete t t) as (λ d. elim d [ yes _ ↦ some i | no _ ↦ find t m ] ≡ some i) [
      | yes _ ↦ refl
      | no n ↦ absurd (n refl)
    ]

find-other :
    (t u : MethodToken) (i : ℕ) (m : List (MethodToken × ℕ))
    → ¬ (u ≡ t)
    → find t ((u, i) ∷ m) ≡ find t m
unfolding find
find-other t u i m ne =
    elim (MethodToken-discrete u t)
      as (λ d. elim d [ yes _ ↦ some i | no _ ↦ find t m ] ≡ find t m) [
        | yes e ↦ absurd (ne e)
        | no _ ↦ refl
      ]

module _ (r : MethodTokenRegistry) (t : MethodToken) (c : IsConsistent r)
    (absent : find t r.index ≡ none) where
  unfoldable pub grown : MethodTokenRegistry
  grown = record { tokens = r.tokens ++ t ∷ []; index = (t, length r.tokens) ∷ r.index }

  pub grown-IsConsistent : IsConsistent grown
  unfolding grown
  grown-IsConsistent = record {
    listed = λ u i h. elim (MethodToken-discrete t u) [
      | yes e ↦ new_listed u i e h
      | no n ↦
          get_elem?-push_old r.tokens t i
            (c.listed u i (sym (find-other u t (length r.tokens) r.index n) ∙ h))
    ];
    indexed = λ u i h. elim (get_elem?-push r.tokens t i h) [
      | inl old ↦
          find-other u t (length r.tokens) r.index
            (λ e. let bad : find t r.index ≡ some i = rw e (c.indexed u i old) in cc)
          ∙ c.indexed u i old
      | inr (last, same) ↦ rw (← same, last) (find_self t (length r.tokens) r.index)
    ];
  }
    where
      new_listed :
          (u : MethodToken) (i : ℕ)
          → t ≡ u
          → find u ((t, length r.tokens) ∷ r.index) ≡ some i
          → get_elem? (r.tokens ++ t ∷ []) i ≡ some u
      new_listed u i e h =
          let h' : find t ((t, length r.tokens) ∷ r.index) ≡ some i =
            subst (λ v. find v ((t, length r.tokens) ∷ r.index) ≡ some i) (sym e) h in
          let at : length r.tokens ≡ i = let s = find_self t (length r.tokens) r.index in cc in
          rw (← e, ← at) (get_elem?-push_new r.tokens t)

  grown_entry :
      (get_elem? grown.tokens (length r.tokens) ≡ some t)
      × (find t grown.index ≡ some (length r.tokens))
  unfolding grown
  grown_entry = (get_elem?-push_new r.tokens t, find_self t (length r.tokens) r.index)

-- The empty registry is consistent.
pub empty-IsConsistent : IsConsistent empty_registry
unfolding find
empty-IsConsistent = record { listed = λ t i h. cc; indexed = λ t i h. cc }

module _ (r : MethodTokenRegistry) (t : MethodToken) (c : IsConsistent r) where
  -- Interning keeps a consistent registry consistent. The returned index is the token's, in the
  -- list and in the map, and the tokens interned before keep their places.
  pub intern-IsConsistent :
      (r' : MethodTokenRegistry) (i : ℕ)
      → intern r t ≡ ok (r', i)
      → IsConsistent r'
        × (get_elem? r'.tokens i ≡ some t)
        × (find t r'.index ≡ some i)
        × (take (length r.tokens) r'.tokens ≡ r.tokens)
  unfolding intern intern_new
  intern-IsConsistent r' i h = elim (Option-cases (find t r.index)) [
    | inr (k, e) ↦
        let h' = rw e at h in
        let same_r : r ≡ r' = cc in
        let same_i : k ≡ i = cc in
        rw (← same_r, ← same_i)
          (c, c.listed t k e, e, take_all (length r.tokens) r.tokens (omega arith))
    | inl e ↦ elim (Bool-cases (leb (length r.tokens) 0xFFFF)) [
      | inl room ↦
          let h' = rw room at (rw e at h) in
          let same_r : grown r t c e ≡ r' = unfold grown in cc in
          let same_i : length r.tokens ≡ i = cc in
          let old : take (length r.tokens) (grown r t c e).tokens ≡ r.tokens =
            unfold grown in take-append r.tokens (t ∷ []) in
          rw (← same_r, ← same_i)
            (grown-IsConsistent r t c e, (grown_entry r t c e).0, (grown_entry r t c e).1, old)
      | inr full ↦ let h' = rw full at (rw e at h) in cc
    ]
  ]

-- Interning fails exactly when the token is new and 65,536 tokens are there.
pub intern-err_iff :
    (r : MethodTokenRegistry) (t : MethodToken)
    → (intern r t ≡ err limit_exceeded) ↔ (find t r.index ≡ none) × (0x1_0000 ≤ length r.tokens)
unfolding intern intern_new
intern-err_iff r t = (
  λ h. elim (Option-cases (find t r.index)) [
    | inr (k, e) ↦ let h' = rw e at h in cc
    | inl e ↦ elim (Bool-cases (leb (length r.tokens) 0xFFFF)) [
      | inl room ↦ let h' = rw room at (rw e at h) in cc
      | inr full ↦ (e, ground arith)
    ]
  ],
  λ (absent, many).
      let full : leb (length r.tokens) 0xFFFF ≡ false = ground arith in rw absent (rw full refl),
)
