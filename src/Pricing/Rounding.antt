-- ===== src/Pricing/Rounding.antt =====
-- `Math.round` of fractions that are not negative.
use native.Mathlib.Nat.{
  div-eq_of_lt, div-mul-le_self, le-div_iff_mul-le, le_of_mul-le-mul_left, mul-le-mul_right,
}
use e_commerce_nodejs.Base.{
  ℕ, suc, ◌+◌, ◌*◌, ◌/◌, ◌≤◌, ◌<◌, ◌≡◌, refl, ap, arith, true, ◌∙◌, false, Bool-cases, inl, inr,
}
use e_commerce_nodejs.Base.Int.{
  ℤ, pos, negsuc, ◌+ℤ◌, ◌*ℤ◌, ◌≤ℤ◌, floor_div, leb_ℤ, min_ℤ, pos_part, +ℤ_parts,
}
use e_commerce_nodejs.Pricing.Fraction.{Fraction, over, whole, at_most, round, maximum, minimum}

pub *ℤ-pos : (a b : ℕ) → pos a *ℤ pos b ≡ pos (a * b)
unfolding ◌*ℤ◌
*ℤ-pos a b = ground arith

+ℤ-pos : (a b : ℕ) → pos a +ℤ pos b ≡ pos (a + b)
unfolding ◌+ℤ◌
+ℤ-pos a b = ground arith

pub round-pos : (a d : ℕ) → round (over (pos a) d) ≡ pos ((2 * a + suc d) / (2 * suc d))
unfolding round floor_div
round-pos a d = rw (*ℤ-pos 2 a, +ℤ-pos (2 * a) (suc d)) refl

rounded-le :
    (a c b d : ℕ)
    → a * suc d ≤ c * suc b
    → (2 * a + suc b) / (2 * suc b) ≤ (2 * c + suc d) / (2 * suc d)
rounded-le a c b d h =
    let q = (2 * a + suc b) / (2 * suc b) in
    let below : q * (2 * suc b) ≤ 2 * a + suc b = div-mul-le_self (2 * a + suc b) (2 * suc b) in
    let scaled : q * (2 * suc b) * suc d ≤ (2 * a + suc b) * suc d =
      mul-le-mul_right (suc d) below in
    let cancelled : q * (2 * suc d) ≤ 2 * c + suc d =
      le_of_mul-le-mul_left {k = suc b} (omega (arith, scaled, h)) (omega arith) in
    let (_, back) = le-div_iff_mul-le {k = 2 * suc d} {x = q} {y = 2 * c + suc d} (omega arith) in
    back cancelled

at_most-pos :
    (a b c d : ℕ) → at_most (over (pos a) b) (over (pos c) d) ≡ true → a * suc d ≤ c * suc b
at_most-pos a b c d h =
    let e : leb_ℤ (pos (a * suc d)) (pos (c * suc b)) ≡ true =
      rw (*ℤ-pos a (suc d), *ℤ-pos c (suc b)) at h in
    ground arith

-- Rounding keeps the order.
pub round-at_most :
    (a b c d : ℕ)
    → at_most (over (pos a) b) (over (pos c) d) ≡ true
    → round (over (pos a) b) ≤ℤ round (over (pos c) d)
round-at_most a b c d h =
    let le = rounded-le a c b d (at_most-pos a b c d h) in
    rw (round-pos a b, round-pos c d) (omega arith)

-- Rounding keeps whole numbers.
pub round-whole : (n : ℕ) → round (whole (pos n)) ≡ pos n
round-whole n = rw (round-pos n 0) (ap pos (omega arith))

pub round-pos-nonneg : (a d : ℕ) → pos 0 ≤ℤ round (over (pos a) d)
round-pos-nonneg a d = rw (round-pos a d) (omega arith)

-- A fraction below 0 rounds to 0 at most.
floor_div-small : (x : ℤ) (d : ℕ) → pos_part x < d → floor_div x d ≤ℤ pos 0
unfolding floor_div
floor_div-small (pos n) d h = rw (div-eq_of_lt h) (omega arith)
floor_div-small (negsuc n) d h = omega arith

doubled : (a : ℕ) → pos_part (pos 2 *ℤ negsuc a) ≡ 0
unfolding ◌*ℤ◌
doubled a = ground arith

pub round-negsuc : (a d : ℕ) → round (over (negsuc a) d) ≤ℤ pos 0
unfolding round
round-negsuc a d =
    floor_div-small (pos 2 *ℤ negsuc a +ℤ pos (suc d)) (2 * suc d)
      (ground (arith, +ℤ_parts (pos 2 *ℤ negsuc a) (pos (suc d)), doubled a))

-- Fractions below 0 in the order.
below_zero : (k a d : ℕ) → leb_ℤ (pos k) (negsuc a *ℤ pos (suc d)) ≡ false
unfolding ◌*ℤ◌
below_zero k a d = ground arith

zero_times : (d : ℕ) → pos 0 *ℤ pos d ≡ pos 0
zero_times d = *ℤ-pos 0 d ∙ ap pos (omega arith)

at_most-negsuc : (c d a b : ℕ) → at_most (over (pos c) d) (over (negsuc a) b) ≡ false
at_most-negsuc c d a b = rw (*ℤ-pos c (suc b)) (below_zero (c * suc b) a d)

at_most-zero : (c d : ℕ) → at_most (over (pos 0) 0) (over (pos c) d) ≡ true
at_most-zero c d = rw (zero_times (suc d), *ℤ-pos c 1) (ground arith)

at_most-total :
    (a b c d : ℕ)
    → at_most (over (pos a) b) (over (pos c) d) ≡ false
    → at_most (over (pos c) d) (over (pos a) b) ≡ true
at_most-total a b c d h =
    let e : leb_ℤ (pos (a * suc d)) (pos (c * suc b)) ≡ false =
      rw (*ℤ-pos a (suc d), *ℤ-pos c (suc b)) at h in
    rw (*ℤ-pos a (suc d), *ℤ-pos c (suc b)) (ground arith)

-- What is cut to lie between 0 and a fraction, and then rounded.
pub round-clamp :
    (c d a b : ℕ)
    → round (maximum (over (pos 0) 0) (minimum (over (pos c) d) (over (pos a) b)))
      ≡ min_ℤ (round (over (pos c) d)) (round (over (pos a) b))
round-clamp c d a b = elim (Bool-cases (at_most (over (pos c) d) (over (pos a) b))) [
  | inl first ↦
      let le = round-at_most c d a b first in rw (first, at_most-zero c d) (ground (arith, le))
  | inr second ↦
      let le = round-at_most a b c d (at_most-total c d a b second) in
      rw (second, at_most-zero a b) (ground (arith, le))
]

pub clamp-negsuc :
    (x : Fraction) (a b : ℕ)
    → maximum (over (pos 0) 0) (minimum x (over (negsuc a) b)) ≡ over (pos 0) 0
clamp-negsuc (over (pos c) d) a b = rw (at_most-negsuc c d a b, at_most-negsuc 0 0 a b) refl
clamp-negsuc (over (negsuc c) d) a b =
    elim (Bool-cases (at_most (over (negsuc c) d) (over (negsuc a) b))) [
      | inl first ↦ rw (first, at_most-negsuc 0 0 c d) refl
      | inr second ↦ rw (second, at_most-negsuc 0 0 a b) refl
    ]
