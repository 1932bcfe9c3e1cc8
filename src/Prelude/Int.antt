-- ===== src/Prelude/Int.antt =====
-- Signed integers over the native numbers, under the library's names, and the numbers of the
-- source's language: integers, the two infinities and NaN. Fractions are left out.
use Prim.Native.Nat.{ℕ, suc, ◌+◌, ◌-◌, ◌≤◌}
use mathlib.Core.Bool.{Bool, true, false}
use jme_loop_public.Prelude.Tests.{leb, if◌then◌else◌}

-- `negsuc n` is -(n + 1).
pub data ℤ : Type 0 where
  pos : ℕ → ℤ
  negsuc : ℕ → ℤ

abbrev pub pos_part : ℤ → ℕ
pos_part (pos n) = n
pos_part (negsuc n) = 0

abbrev pub neg_part : ℤ → ℕ
neg_part (pos n) = 0
neg_part (negsuc n) = suc n

-- a - b, as an integer.
abbrev pub sub_ℕ : ℕ → ℕ → ℤ
sub_ℕ a b = if leb b a then pos (a - b) else negsuc (b - a - 1)

infixl 65 ◌-ℤ◌
infix 50 ◌≤ℤ◌
unfoldable pub ◌-ℤ◌ : ℤ → ℤ → ℤ
a -ℤ b = sub_ℕ (pos_part a + neg_part b) (neg_part a + pos_part b)

abbrev pub ◌≤ℤ◌ : ℤ → ℤ → Type 0
a ≤ℤ b = pos_part a + neg_part b ≤ pos_part b + neg_part a

abbrev pub leb_ℤ : ℤ → ℤ → Bool
leb_ℤ a b = leb (pos_part a + neg_part b) (pos_part b + neg_part a)

pub data Number : Type 0 where
  nan infinity minus_infinity : Number
  int : ℤ → Number

-- `a >= b`: no comparison with NaN holds.
unfoldable pub ge : Number → Number → Bool
ge nan b = false
ge a nan = false
ge infinity b = true
ge a minus_infinity = true
ge (int a) (int b) = leb_ℤ b a
ge a b = false

-- `a - b`.
unfoldable pub minus : Number → Number → Number
unfolding ◌-ℤ◌
minus nan b = nan
minus infinity infinity = nan
minus infinity nan = nan
minus infinity b = infinity
minus minus_infinity minus_infinity = nan
minus minus_infinity nan = nan
minus minus_infinity b = minus_infinity
minus (int a) nan = nan
minus (int a) infinity = minus_infinity
minus (int a) minus_infinity = infinity
minus (int a) (int b) = int (a -ℤ b)

-- `Number.isFinite`.
unfoldable pub is_finite : Number → Bool
is_finite (int _) = true
is_finite _ = false
