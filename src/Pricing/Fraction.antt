-- ===== src/Pricing/Fraction.antt =====
-- The JavaScript numbers of the pricing code as exact fractions: the columns that are `Float` in
-- prisma/schema.prisma, and quotients of whole amounts. Rounding errors of doubles are not modelled.
use e_commerce_nodejs.Base.{ℕ, suc, ◌-◌, ◌*◌, Bool, if◌then◌else◌}
use e_commerce_nodejs.Base.Int.{ℤ, pos, ◌+ℤ◌, ◌-ℤ◌, ◌*ℤ◌, floor_div, leb_ℤ}

-- `over n d` is n / (d + 1).
pub data Fraction : Type 0 where
  over : ℤ → ℕ → Fraction

abbrev pub whole : ℤ → Fraction
whole n = over n 0

abbrev pub add : Fraction → Fraction → Fraction
add (over a b) (over c d) = over (a *ℤ pos (suc d) +ℤ c *ℤ pos (suc b)) (suc b * suc d - 1)

abbrev pub subtract : Fraction → Fraction → Fraction
subtract (over a b) (over c d) = over (a *ℤ pos (suc d) -ℤ c *ℤ pos (suc b)) (suc b * suc d - 1)

abbrev pub times : Fraction → Fraction → Fraction
times (over a b) (over c d) = over (a *ℤ c) (suc b * suc d - 1)

-- `x / 100`
abbrev pub per_cent : Fraction → Fraction
per_cent (over a b) = over a (suc b * 100 - 1)

abbrev pub at_most : Fraction → Fraction → Bool
at_most (over a b) (over c d) = leb_ℤ (a *ℤ pos (suc d)) (c *ℤ pos (suc b))

abbrev pub minimum : Fraction → Fraction → Fraction
minimum x y = if at_most x y then x else y

abbrev pub maximum : Fraction → Fraction → Fraction
maximum x y = if at_most x y then y else x

-- `Math.round`: to the nearest whole number, halves upwards.
unfoldable pub round : Fraction → ℤ
round (over a b) = floor_div (pos 2 *ℤ a +ℤ pos (suc b)) (2 * suc b)
