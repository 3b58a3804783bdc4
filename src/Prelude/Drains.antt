-- ===== src/Prelude/Drains.antt =====
-- Lists after `drain`: what stands where, and how long they are.
use Prim.Native.Nat.{ℕ, zero, suc, ◌+◌, ◌≤◌}
use mathlib.Core.Path.{◌≡◌, refl, ap, ◌∙◌, sym}
use mathlib.Core.Logic.{inl, inr}
use mathlib.Core.Bool.{true, false}
use mathlib.Core.List.{List, [], ◌∷◌}
use native.Mathlib.Omega.{arith}
use neo_lang.Prelude.Tests.{ltb, if◌then◌else◌, Bool-cases, ltb→lt, ltb→ge, lt→ltb, ge→ltb}
use neo_lang.Prelude.Lists.{length, get_elem?, drop, drain, get_elem?-drop, drop-drop, length-drop}

-- The old index of what stands at `k` after `n` elements at `i` have gone.
abbrev pub before_drain : ℕ → ℕ → ℕ → ℕ
before_drain i n k = if ltb k i then k else k + n

module _ {ℓ} {A : Type ℓ} where
  drop-nil : (n : ℕ) → drop {A = A} n [] ≡ []
  drop-nil zero = refl
  drop-nil (suc n) = refl

  pub drain-nil : (i n : ℕ) → drain {A = A} [] i n ≡ []
  drain-nil zero n = drop-nil (0 + n)
  drain-nil (suc i) n = drop-nil (suc i + n)

  pub drain-zero : (xs : List A) (n : ℕ) → drain xs 0 n ≡ drop n xs
  drain-zero xs n = ap (λ k. drop k xs) zero_plus
    where
      zero_plus : 0 + n ≡ n
      zero_plus = omega arith

  pub drain-suc : (x : A) (xs : List A) (i n : ℕ) → drain (x ∷ xs) (suc i) n ≡ x ∷ drain xs i n
  drain-suc x xs i n = let e : suc i + n ≡ suc (i + n) = omega arith in rw e refl

  pub get_elem?-drain :
      (xs : List A) (i n k : ℕ) → get_elem? (drain xs i n) k ≡ get_elem? xs (before_drain i n k)
  get_elem?-drain [] i n k = ap (λ t. get_elem? t k) (drain-nil i n)
  get_elem?-drain (x ∷ xs) zero n k =
      let off : ltb k 0 ≡ false = ge→ltb k 0 (omega arith) in
      let swap : n + k ≡ k + n = omega arith in
      ap (λ t. get_elem? t k) (drain-zero (x ∷ xs) n)
      ∙ get_elem?-drop (drop n (x ∷ xs)) k
      ∙ ap (λ t. get_elem? t 0) (sym (drop-drop (x ∷ xs) n k))
      ∙ sym (get_elem?-drop (x ∷ xs) (n + k))
      ∙ rw (off, swap) refl
  get_elem?-drain (x ∷ xs) (suc i) n zero =
      let on : ltb 0 (suc i) ≡ true = lt→ltb 0 (suc i) (omega arith) in
      ap (λ t. get_elem? t 0) (drain-suc x xs i n) ∙ rw on refl
  get_elem?-drain (x ∷ xs) (suc i) n (suc k) =
      ap (λ t. get_elem? t (suc k)) (drain-suc x xs i n)
      ∙ get_elem?-drain xs i n k
      ∙ elim (Bool-cases (ltb k i)) [
        | inl on ↦
            let on' : ltb (suc k) (suc i) ≡ true =
              lt→ltb (suc k) (suc i) (omega (arith, ltb→lt k i on)) in
            rw (on, on') refl
        | inr off ↦
            let off' : ltb (suc k) (suc i) ≡ false =
              ge→ltb (suc k) (suc i) (omega (arith, ltb→ge k i off)) in
            let e : suc k + n ≡ suc (k + n) = omega arith in rw (off, off', e) refl
      ]

  pub length-drain :
      (xs : List A) (i n : ℕ) → i + n ≤ length xs → length (drain xs i n) + n ≡ length xs
  length-drain [] i n h = omega (arith, ap length (drain-nil i n))
  length-drain (x ∷ xs) zero n h =
      omega (arith, ap length (drain-zero (x ∷ xs) n), length-drop {ℓ} n (x ∷ xs))
  length-drain (x ∷ xs) (suc i) n h =
      omega (arith, ap length (drain-suc x xs i n), length-drain xs i n (omega arith))
