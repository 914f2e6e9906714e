-- ===== src/Graph/Fractions.antt =====
-- The non-negative fractions that stand for the doubles of src/graph/index.ts: a fraction's denominator is
-- one more than its field, so it is never 0.
use native.Mathlib.Nat.{mul-le-mul, mul-le-mul_right, le_of_mul-le-mul_right}
use atel_sdk.Base.{ℕ, zero, suc, ◌+◌, ◌-◌, ◌*◌, ◌≤◌, ◌<◌, ◌≡◌, Bool, true, false, ltb, arith}

pub record Fraction : Type 0 where
  pub num : ℕ
  pub below : ℕ

abbrev pub den : Fraction → ℕ
den f = suc f.below

abbrev pub nought : Fraction
nought = record { num = 0; below = 0 }

abbrev pub one : Fraction
one = record { num = 1; below = 0 }

abbrev pub ratio : ℕ → ℕ → Fraction
ratio n d = record { num = n; below = d - 1 }

unfoldable pub times : Fraction → Fraction → Fraction
times a b = record { num = a.num * b.num; below = a.below * b.below + a.below + b.below }

unfoldable pub plus : Fraction → Fraction → Fraction
plus a b = record {
  num = a.num * den b + b.num * den a;
  below = a.below * b.below + a.below + b.below;
}

abbrev pub power : Fraction → ℕ → Fraction
power f zero = one
power f (suc n) = times f (power f n)

-- a > b
unfoldable pub above : Fraction → Fraction → Bool
above a b = ltb (b.num * den a) (a.num * den b)

-- Between 0 and 1.
abbrev pub IsUnit : Fraction → Type 0
IsUnit f = f.num ≤ den f

pub times-IsUnit : (a b : Fraction) → IsUnit a → IsUnit b → IsUnit (times a b)
unfolding times
times-IsUnit a b h k = grind (arith, mul-le-mul h k)

pub above_irrefl : (a : Fraction) → above a a ≡ false
unfolding above
above_irrefl a = ground arith

cross_trans : (x y z p q r : ℕ) → 0 < q → x * q ≤ y * p → y * r ≤ z * q → x * r ≤ z * p
cross_trans x y z p q r pos h k =
    let first = mul-le-mul_right r h in
    let second = mul-le-mul_right p k in
    le_of_mul-le-mul_right {k = q} (grind (arith, first, second)) pos

-- What is not above b is not above what b is not above.
pub not_above_trans : (a b c : Fraction) → above a b ≡ false → above b c ≡ false → above a c ≡ false
unfolding above
not_above_trans a b c h k =
    let both =
      cross_trans a.num b.num c.num (den a) (den b) (den c) (omega arith) (ground (arith, h))
        (ground (arith, k)) in
    ground (arith, both)

pub above-asym : (a b : Fraction) → above a b ≡ true → above b a ≡ false
unfolding above
above-asym a b h = ground (arith, h)
