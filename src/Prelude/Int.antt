-- ===== src/Prelude/Int.antt =====
-- Signed integers over the native numbers, for Go's `int64`.
use Prim.Native.Nat.{ℕ, suc, ◌+◌, ◌-◌, ◌≤◌, ◌<◌, ◌%◌}
use mathlib.Core.Path.{◌≡◌}
use mathlib.Core.Bool.{Bool, true}
use native.Mathlib.Omega.{arith}
use axigate_finops.Prelude.Tests.{ltb, leb, if◌then◌else◌}

pub data ℤ : Type 0 where
  pos : ℕ → ℤ
  negsuc : ℕ → ℤ

abbrev pub pos_part : ℤ → ℕ
pos_part (pos n) = n
pos_part (negsuc n) = 0

abbrev pub neg_part : ℤ → ℕ
neg_part (pos n) = 0
neg_part (negsuc n) = suc n

abbrev pub sub_ℕ : ℕ → ℕ → ℤ
sub_ℕ a b = if leb b a then pos (a - b) else negsuc (b - a - 1)

infixl 65 ◌+ℤ◌ ◌-ℤ◌
infix 50 ◌≤ℤ◌ ◌<ℤ◌
unfoldable pub ◌+ℤ◌ : ℤ → ℤ → ℤ
a +ℤ b = sub_ℕ (pos_part a + pos_part b) (neg_part a + neg_part b)

unfoldable pub ◌-ℤ◌ : ℤ → ℤ → ℤ
a -ℤ b = sub_ℕ (pos_part a + neg_part b) (neg_part a + pos_part b)

abbrev pub ◌≤ℤ◌ : ℤ → ℤ → Type 0
a ≤ℤ b = pos_part a + neg_part b ≤ pos_part b + neg_part a

abbrev pub ◌<ℤ◌ : ℤ → ℤ → Type 0
a <ℤ b = pos_part a + neg_part b < pos_part b + neg_part a

abbrev pub ltb_ℤ : ℤ → ℤ → Bool
ltb_ℤ a b = ltb (pos_part a + neg_part b) (pos_part b + neg_part a)

abbrev pub leb_ℤ : ℤ → ℤ → Bool
leb_ℤ a b = leb (pos_part a + neg_part b) (pos_part b + neg_part a)

pub +ℤ_parts :
    (a b : ℤ)
    → pos_part (a +ℤ b) + neg_part a + neg_part b ≡ neg_part (a +ℤ b) + pos_part a + pos_part b
unfolding ◌+ℤ◌
+ℤ_parts a b = ground arith

pub -ℤ_parts :
    (a b : ℤ)
    → pos_part (a -ℤ b) + neg_part a + pos_part b ≡ neg_part (a -ℤ b) + pos_part a + neg_part b
unfolding ◌-ℤ◌
-ℤ_parts a b = ground arith

pub eq_of_parts : (a b : ℤ) → pos_part a + neg_part b ≡ pos_part b + neg_part a → a ≡ b
eq_of_parts a b h = ground arith

pub ruleset int_laws = (arith, +ℤ_parts, -ℤ_parts, eq_of_parts)

pub leb_ℤ→≤ℤ : (a b : ℤ) → leb_ℤ a b ≡ true → a ≤ℤ b
leb_ℤ→≤ℤ a b h = ground arith

pub ≤ℤ→leb_ℤ : (a b : ℤ) → a ≤ℤ b → leb_ℤ a b ≡ true
≤ℤ→leb_ℤ a b h = ground arith

-- The value of an `int64` after an operation: the representative modulo 2^64 in its range.
unfoldable pub wrap_64 : ℤ → ℤ
wrap_64 z =
    let u =
      (pos_part z + (18446744073709551616 - neg_part z % 18446744073709551616))
      % 18446744073709551616 in
    if ltb u 9223372036854775808 then pos u else negsuc (18446744073709551616 - u - 1)

pub wrap_64_small : (n : ℕ) → n < 9223372036854775808 → wrap_64 (pos n) ≡ pos n
unfolding wrap_64
wrap_64_small n h = ground arith

pub wrap_64_negative : (n : ℕ) → n < 9223372036854775808 → wrap_64 (negsuc n) ≡ negsuc n
unfolding wrap_64
wrap_64_negative n h = ground arith

-- A value in the range of `int64` is left as it is.
pub wrap_64_in_range :
    (z : ℤ) → pos_part z < 9223372036854775808 → neg_part z ≤ 9223372036854775808 → wrap_64 z ≡ z
wrap_64_in_range (pos n) h k = wrap_64_small n h
wrap_64_in_range (negsuc n) h k = wrap_64_negative n (omega (arith, k))

pub sub_ℕ_of_le : (a b : ℕ) → b ≤ a → pos a -ℤ pos b ≡ pos (a - b)
unfolding ◌-ℤ◌
sub_ℕ_of_le a b h = ground arith

-- Subtracting from a difference that is in range.
pub wrap_64-sub_ℕ :
    (x y : ℕ) → x < 9223372036854775808 → y ≤ 9223372036854775808 → wrap_64 (sub_ℕ x y) ≡ sub_ℕ x y
wrap_64-sub_ℕ x y h k = wrap_64_in_range (sub_ℕ x y) (ground arith) (ground arith)

pub sub_ℕ_minus : (x y c : ℕ) → sub_ℕ x y -ℤ pos c ≡ sub_ℕ x (y + c)
unfolding ◌-ℤ◌
sub_ℕ_minus x y c = ground arith
