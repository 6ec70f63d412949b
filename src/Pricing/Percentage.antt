-- ===== src/Pricing/Percentage.antt =====
-- A percentage of a price, rounded, against the percentage of the rounded price.
use native.Mathlib.Nat.{
  div-mul-le_self, lt-div-mul-add, le_of_mul-le-mul_left, mul-le-mul_left, mul-le-mul_right,
}
use e_commerce_nodejs.Base.{ℕ, suc, ◌+◌, ◌-◌, ◌*◌, ◌≤◌, ◌<◌, ◌≡◌, arith}
use e_commerce_nodejs.Base.Int.{pos, pos_part}
use e_commerce_nodejs.Pricing.Fraction.{over, round}
use e_commerce_nodejs.Pricing.Rounding.{round-pos}

near_above :
    (d o b n m : ℕ)
    → 0 < b
    → m ≤ 100
    → d * (2 * (b * 100)) ≤ 2 * (n * m) + b * 100
    → 2 * n + b < o * (2 * b) + 2 * b
    → 100 * d ≤ m * o + 100
near_above d o b n m positive le below above =
    let scaled : m * (2 * n + b) ≤ m * (o * (2 * b) + 2 * b) = mul-le-mul_left m (omega arith) in
    let small : m * b ≤ 100 * b = mul-le-mul_right b le in
    le_of_mul-le-mul_left {k = 2 * b} (omega (arith, scaled, small, below)) (omega arith)

near_below :
    (d o b n m : ℕ)
    → 0 < b
    → m ≤ 100
    → 2 * (n * m) + b * 100 < d * (2 * (b * 100)) + 2 * (b * 100)
    → o * (2 * b) ≤ 2 * n + b
    → m * o ≤ 100 * d + 100
near_below d o b n m positive le above below =
    let scaled : m * (o * (2 * b)) ≤ m * (2 * n + b) = mul-le-mul_left m below in
    let small : m * b ≤ 100 * b = mul-le-mul_right b le in
    le_of_mul-le-mul_left {k = 2 * b} (omega (arith, scaled, small, above)) (omega arith)

-- `m` per cent of a price, `n / (b + 1)`, and the price, both rounded.
module _ (n b m : ℕ) (le : m ≤ 100) where
  abbrev part : ℕ
  part = pos_part (round (over (pos (n * m)) (suc b * 100 - 1)))

  abbrev price : ℕ
  price = pos_part (round (over (pos n) b))

  divisor : suc (suc b * 100 - 1) ≡ suc b * 100
  divisor = omega arith

  pub percentage-le : 100 * part ≤ m * price + 100
  percentage-le =
      rw (round-pos (n * m) (suc b * 100 - 1), round-pos n b, divisor)
        (near_above _ _ (suc b) n m (omega arith) le
          (div-mul-le_self (2 * (n * m) + suc b * 100) (2 * (suc b * 100)))
          (lt-div-mul-add {a = 2 * n + suc b} {b = 2 * suc b} (omega arith)))

  pub percentage-ge : m * price ≤ 100 * part + 100
  percentage-ge =
      rw (round-pos (n * m) (suc b * 100 - 1), round-pos n b, divisor)
        (near_below _ _ (suc b) n m (omega arith) le
          (lt-div-mul-add {a = 2 * (n * m) + suc b * 100} {b = 2 * (suc b * 100)} (omega arith))
          (div-mul-le_self (2 * n + suc b) (2 * suc b)))
