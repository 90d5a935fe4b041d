-- ===== src/Prelude/Floats.antt =====
-- What the source uses of `float64` dollar figures: the operations of Go's numbers, `math.Round`
-- and `strconv.FormatFloat`, over an abstract type, since there are no floats here.
use Prim.Native.Nat.{ℕ, zero, suc, ◌+◌, ◌-◌, ◌*◌, ◌/◌, ◌%◌, ◌^◌}
use mathlib.Core.Path.{◌≡◌}
use mathlib.Core.Bool.{Bool, true, false}
use mathlib.Core.List.{[], ◌∷◌, ◌++◌}
use native.Mathlib.Omega.{arith}
use axigate_finops.Prelude.Tests.{ltb, ◌==◌}
use axigate_finops.Prelude.Text.{Bytes, itoa}
use axigate_finops.Prelude.Int.{ℤ, pos, pos_part, ◌≤ℤ◌}

-- The values are the finite ones.
pub record Float (D : Type 0) : Type 0 where
  -- The constant `n / 10 ^ k` of a source literal.
  pub literal : ℕ → ℕ → D
  pub add : D → D → D
  pub sub : D → D → D
  pub mul : D → D → D
  pub div : D → D → D
  pub less : D → D → Bool
  pub equal : D → D → Bool
  -- `float64(n)`, `math.Round`, `int64(v)`
  pub of_int : ℤ → D
  pub round : D → D
  pub to_int64 : D → ℤ
  -- `strconv.FormatFloat(v, 'f', prec, 64)`
  pub format_fixed : ℕ → D → Bytes

module _ {D : Type 0} ⦃f : Float D⦄ where
  abbrev pub zero_usd : D
  zero_usd = f.literal 0 0

  -- `v > 0`
  abbrev pub positive : D → Bool
  positive v = f.less zero_usd v

  abbrev pub AtMost : D → D → Type 0
  AtMost a b = f.less b a ≡ false

  -- Dollars whose micro-dollars are within `int64`.
  abbrev pub max_usd : D
  max_usd = f.literal 9000000000000 0

  -- `micro` of gateway/control.go: a dollar figure in whole micro-dollars.
  unfoldable pub micro : D → ℤ
  micro v = f.to_int64 (f.round (f.mul v (f.literal 1000000 0)))

-- What IEEE 754 arithmetic gives on finite values: sums, products and quotients of figures that
-- are not negative are not negative, zero is neutral, and rounding to whole micro-dollars keeps
-- the order of figures whose micro-dollars are within `int64`.
pub record FloatLaws (D : Type 0) ⦃f : Float D⦄ : Type 0 where
  pub add_grows : (a b : D) → AtMost (f.literal 0 0) b → AtMost a (f.add a b)
  pub mul_nonneg :
      (a b : D)
      → AtMost (f.literal 0 0) a
      → AtMost (f.literal 0 0) b
      → AtMost (f.literal 0 0) (f.mul a b)
  pub add_nonneg :
      (a b : D)
      → AtMost (f.literal 0 0) a
      → AtMost (f.literal 0 0) b
      → AtMost (f.literal 0 0) (f.add a b)
  pub literal_nonneg : (n k : ℕ) → AtMost (f.literal 0 0) (f.literal n k)
  pub of_int_nonneg : (n : ℕ) → AtMost (f.literal 0 0) (f.of_int (pos n))
  pub positive_nonneg : (a : D) → f.less (f.literal 0 0) a ≡ true → AtMost (f.literal 0 0) a
  pub at_most_less_trans : (a b c : D) → AtMost a b → f.less b c ≡ true → AtMost a c
  pub add_zero : (a : D) → f.add a (f.literal 0 0) ≡ a
  pub mul_zero : (a : D) → f.mul a (f.of_int (pos 0)) ≡ f.literal 0 0
  pub micro_mono :
      (a b : D) → AtMost (f.literal 0 0) a → AtMost a b → AtMost b max_usd → micro a ≤ℤ micro b

-- Dollars as whole nano-dollars that are not negative: a float type to run the code with.
abbrev fixed_literal : ℕ → ℕ → ℕ
fixed_literal n k = n * 1000000000 / 10 ^ k

-- The first `k` decimals of a fraction in nano-units.
abbrev decimals : ℕ → ℕ → Bytes
decimals zero r = []
decimals (suc k) r = (48 + r * 10 / 1000000000) ∷ decimals k (r * 10 % 1000000000)

instance abbrev pub fixed_float : Float ℕ
fixed_float = record {
  literal = fixed_literal;
  add = λ a b. a + b;
  sub = λ a b. a - b;
  mul = λ a b. a * b / 1000000000;
  div = λ a b. a * 1000000000 / b;
  less = ltb;
  equal = ◌==◌;
  of_int = λ n. pos_part n * 1000000000;
  round = λ a. (a + 500000000) / 1000000000 * 1000000000;
  to_int64 = λ a. pos (a / 1000000000);
  format_fixed = λ k a. itoa (a / 1000000000) ++ b'.' ∷ decimals k (a % 1000000000);
}

pub fixed_laws : FloatLaws ℕ
unfolding micro
fixed_laws = record {
  add_grows = λ a b h. ground arith;
  mul_nonneg = λ a b h k. ground arith;
  add_nonneg = λ a b h k. ground arith;
  literal_nonneg = λ n k. ground arith;
  of_int_nonneg = λ n. ground arith;
  positive_nonneg = λ a h. ground arith;
  at_most_less_trans = λ a b c h k. ground arith;
  add_zero = λ a. omega arith;
  mul_zero = λ a. omega arith;
  micro_mono = λ a b z h k. ground (arith);
}
