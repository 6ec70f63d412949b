-- ===== src/Pricing/Allocation.antt =====
-- src/utils/allocation.ts: an amount shared out in proportion to weights.
use native.Mathlib.Nat.{le_of_mul-le-mul_left}
use e_commerce_nodejs.Base.{
  ℕ, ◌+◌, ◌*◌, ◌≤◌, ◌<◌, ◌≡◌, ap, refl, false, ◌||◌, List, [], ◌∷◌, map, arith, Bool-cases, inl,
  inr, ◌==◌, if◌then◌else◌,
}
use e_commerce_nodejs.Base.Int.{
  ℤ, pos, negsuc, pos_part, neg_part, ◌+ℤ◌, ◌-ℤ◌, ◌*ℤ◌, ◌≤ℤ◌, leb_ℤ, floor_div, floor_div-le,
  times_parts, +ℤ_parts, -ℤ_parts, eq_of_parts, int_laws,
}

abbrev pub sum_ℤ : List ℤ → ℤ
sum_ℤ [] = pos 0
sum_ℤ (x ∷ xs) = x +ℤ sum_ℤ xs

-- `shares[shares.length - 1] += remainder`
abbrev pub add_to_last : ℤ → List ℤ → List ℤ
add_to_last r [] = []
add_to_last r (x ∷ []) = (x +ℤ r) ∷ []
add_to_last r (x ∷ y ∷ xs) = x ∷ add_to_last r (y ∷ xs)

abbrev pub floor_shares : ℕ → ℤ → List ℤ → List ℤ
floor_shares total weight_sum weights =
    map (λ w. floor_div (pos total *ℤ w) (pos_part weight_sum)) weights

abbrev pub give_remainder : ℤ → List ℤ → List ℤ
give_remainder remainder shares =
    if leb_ℤ remainder (pos 0) then shares else add_to_last remainder shares

-- `allocateProportionally`
unfoldable pub allocate_proportionally : ℕ → List ℤ → List ℤ
allocate_proportionally total weights =
    let weight_sum = sum_ℤ weights in
    if total == 0 || leb_ℤ weight_sum (pos 0)
    then map (λ _. pos 0) weights
    else let shares = floor_shares total weight_sum weights in
      give_remainder (pos total -ℤ sum_ℤ shares) shares

-- The shares, weighed by the divisor, stay below `total` times the weights.
floor_shares-le :
    (total : ℕ) (d : ℤ) (ws : List ℤ)
    → 0 < pos_part d
    → pos_part d * pos_part (sum_ℤ (floor_shares total d ws)) + total * neg_part (sum_ℤ ws)
      ≤ total * pos_part (sum_ℤ ws) + pos_part d * neg_part (sum_ℤ (floor_shares total d ws))
floor_shares-le total d [] h = omega arith
floor_shares-le total d (w ∷ ws) h =
    let q = floor_div (pos total *ℤ w) (pos_part d) in
    let rest = sum_ℤ (floor_shares total d ws) in
    omega (
      arith,
      ap (λ (k : ℕ). pos_part d * k) (+ℤ_parts q rest),
      ap (λ (k : ℕ). total * k) (+ℤ_parts w (sum_ℤ ws)),
      floor_div-le (pos total *ℤ w) (pos_part d) h,
      times_parts total w,
      floor_shares-le total d ws h,
    )

sum-add_to_last :
    (r : ℤ) (x : ℤ) (xs : List ℤ) → sum_ℤ (add_to_last r (x ∷ xs)) ≡ sum_ℤ (x ∷ xs) +ℤ r
sum-add_to_last r x [] = omega int_laws
sum-add_to_last r x (y ∷ xs) = rw (sum-add_to_last r y xs) (omega int_laws)

neg_part_of_pos : (a : ℤ) → 0 < pos_part a → neg_part a ≡ 0
neg_part_of_pos (pos n) h = refl
neg_part_of_pos (negsuc n) h = absurd (omega arith)

-- The rounded shares never exceed the total.
sum-floor_shares-le :
    (total : ℕ) (ws : List ℤ)
    → 0 < pos_part (sum_ℤ ws)
    → sum_ℤ (floor_shares total (sum_ℤ ws) ws) ≤ℤ pos total
sum-floor_shares-le total ws h =
    let s = sum_ℤ (floor_shares total (sum_ℤ ws) ws) in
    let below : pos_part s ≤ total + neg_part s =
      le_of_mul-le-mul_left {k = pos_part (sum_ℤ ws)}
        (omega (
          arith,
          floor_shares-le total (sum_ℤ ws) ws h,
          ap (λ (k : ℕ). total * k) (neg_part_of_pos (sum_ℤ ws) h),
        ))
        h in
    omega arith

sum-give_remainder :
    (total x : ℤ) (xs : List ℤ)
    → sum_ℤ (x ∷ xs) ≤ℤ total
    → sum_ℤ (give_remainder (total -ℤ sum_ℤ (x ∷ xs)) (x ∷ xs)) ≡ total
sum-give_remainder total x xs h =
    let r = total -ℤ sum_ℤ (x ∷ xs) in
    elim (Bool-cases (leb_ℤ r (pos 0))) [
      | inl full ↦ rw full (eq_of_parts _ _ (ground (arith, -ℤ_parts total (sum_ℤ (x ∷ xs)))))
      | inr more ↦ rw (more, sum-add_to_last (total -ℤ sum_ℤ (x ∷ xs)) x xs) (omega int_laws)
    ]

-- If there is something to share and the weights have a positive sum, the shares add up to exactly
-- the total.
pub sum-allocate_proportionally :
    (total : ℕ) (weights : List ℤ)
    → 0 < total
    → pos 1 ≤ℤ sum_ℤ weights
    → sum_ℤ (allocate_proportionally total weights) ≡ pos total
unfolding allocate_proportionally
sum-allocate_proportionally total [] h k = absurd (omega arith)
sum-allocate_proportionally total (w ∷ ws) h k =
    let shared : (total == 0 || leb_ℤ (sum_ℤ (w ∷ ws)) (pos 0)) ≡ false = ground arith in
    rw shared
      (sum-give_remainder (pos total) _ _ (sum-floor_shares-le total (w ∷ ws) (omega arith)))
