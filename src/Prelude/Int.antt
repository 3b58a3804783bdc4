-- ===== src/Prelude/Int.antt =====
-- Signed integers over the native numbers (the library's ℤ stands on the unary ℕ), and the two's
-- complement of a machine integer whose bit patterns are the numbers below 2 * h.
use Prim.Native.Nat.{ℕ, suc, ◌+◌, ◌-◌, ◌*◌, ◌%◌, ◌≤◌, ◌<◌}
use mathlib.Core.Path.{◌≡◌, ap}
use mathlib.Core.Bool.{Bool, true}
use mathlib.Core.Option.{Option, none, some}
use native.Mathlib.Omega.{arith}
use native.Mathlib.Nat.{mod-eq_of_lt}
use neo_lang.Prelude.Tests.{ltb, leb, if◌then◌else◌, ltb→lt, lt→ltb, ge→ltb}

-- `negsuc n` is -(n + 1).
pub data ℤ : Type 0 where
  pos : ℕ → ℤ
  negsuc : ℕ → ℤ

abbrev pub pos_part : ℤ → ℕ
pos_part (pos n) = n
pos_part (negsuc n) = 0

abbrev pub neg_part : ℤ → ℕ
neg_part (pos n) = 0
neg_part (negsuc n) = suc n

-- a - b, as an integer: `a as i64 - b as i64`.
abbrev pub sub_ℕ : ℕ → ℕ → ℤ
sub_ℕ a b = if leb b a then pos (a - b) else negsuc (b - a - 1)

-- `usize::try_from(a as i64 + z)`.
abbrev pub add_offset : ℕ → ℤ → Option ℕ
add_offset a (pos n) = some (a + n)
add_offset a (negsuc n) = if ltb n a then some (a - suc n) else none

-- The distance from `a` to `b`, added to `a`, is `b`.
pub add_offset-sub_ℕ : (a b : ℕ) → add_offset a (sub_ℕ b a) ≡ some b
add_offset-sub_ℕ a b = ground arith

-- -h ≤ z < h, the range of a signed integer.
abbrev pub Fits : ℕ → ℤ → Type 0
Fits h (pos n) = n < h
Fits h (negsuc n) = n < h

abbrev pub fits : ℕ → ℤ → Bool
fits h (pos n) = ltb n h
fits h (negsuc n) = ltb n h

pub fits→Fits : (h : ℕ) (z : ℤ) → fits h z ≡ true → Fits h z
fits→Fits h (pos n) e = ltb→lt n h e
fits→Fits h (negsuc n) e = ltb→lt n h e

pub Fits→fits : (h : ℕ) (z : ℤ) → Fits h z → fits h z ≡ true
Fits→fits h (pos n) e = lt→ltb n h e
Fits→fits h (negsuc n) e = lt→ltb n h e

-- The bit pattern of `z`, as the cast of a wider signed integer keeps its low bits.
unfoldable pub to_bits : ℕ → ℤ → ℕ
to_bits h (pos n) = n % (2 * h)
to_bits h (negsuc n) = 2 * h - 1 - n % (2 * h)

-- The integer that a bit pattern stands for.
unfoldable pub of_bits : ℕ → ℕ → ℤ
of_bits h w = if ltb w h then pos w else negsuc (2 * h - 1 - w)

pub of_bits-to_bits : (h : ℕ) (z : ℤ) → Fits h z → of_bits h (to_bits h z) ≡ z
unfolding of_bits to_bits
of_bits-to_bits h (pos n) f =
    let lt : n < 2 * h = omega arith in simp (mod-eq_of_lt lt, lt→ltb n h f)
of_bits-to_bits h (negsuc n) f =
    let lt : n < 2 * h = omega arith in
    let ge : h ≤ 2 * h - 1 - n = omega arith in
    let e : 2 * h - 1 - (2 * h - 1 - n) ≡ n = omega arith in
    simp (mod-eq_of_lt lt, ge→ltb (2 * h - 1 - n) h ge) (ap negsuc e)

pub to_bits-lt : (h : ℕ) (z : ℤ) → 0 < h → to_bits h z < 2 * h
unfolding to_bits
to_bits-lt h (pos n) p = omega arith
to_bits-lt h (negsuc n) p = omega arith
