-- ===== src/Pricing/Effective.antt =====
-- src/utils/pricing.ts: the price of a variant after the discount of its product.
use e_commerce_nodejs.Base.{
  ℕ, suc, ◌*◌, ◌≡◌, Bool-cases, inl, inr, Bool, true, false, not, ◌&&◌, ◌||◌, Option, none, some,
  arith, leb, ◌==◌, if◌then◌else◌,
}
use e_commerce_nodejs.Base.Int.{
  ℤ, pos, ◌+ℤ◌, ◌-ℤ◌, ◌*ℤ◌, ◌≤ℤ◌, max_ℤ, int_laws, -ℤ_parts, *ℤ-nonneg, floor_div-nonneg,
}
use e_commerce_nodejs.Pricing.Fraction.{over, round}
use e_commerce_nodejs.Pricing.Engine.{DiscountType, percent, fixed}

pub record EffectivePrice : Type 0 where
  pub original_price : ℤ
  pub unit_price : ℤ
  pub discount_amount : ℤ
  pub is_discounted : Bool

abbrev pub has_started : Option ℕ → ℕ → Bool
has_started none now = true
has_started (some start_at) now = leb start_at now

abbrev pub has_not_ended : Option ℕ → ℕ → Bool
has_not_ended none now = true
has_not_ended (some end_at) now = leb now end_at

abbrev pub is_active_window : Option ℕ → Option ℕ → ℕ → Bool
is_active_window start_at end_at now = has_started start_at now && has_not_ended end_at now

abbrev pub nominal_discount : ℤ → DiscountType → ℕ → ℤ
nominal_discount original percent value = round (over (original *ℤ pos value) 99)
nominal_discount original fixed value = pos value

abbrev undiscounted : ℤ → EffectivePrice
undiscounted original = record {
  original_price = original;
  unit_price = original;
  discount_amount = pos 0;
  is_discounted = false;
}

abbrev discounted : ℤ → ℤ → EffectivePrice
discounted original unit = record {
  original_price = original;
  unit_price = unit;
  discount_amount = original -ℤ unit;
  is_discounted = true;
}

abbrev apply_discount : ℤ → Option DiscountType → Option ℕ → Bool → EffectivePrice
apply_discount original (some type) (some value) active =
    if value == 0 || not active
    then undiscounted original
    else discounted original (max_ℤ (original -ℤ nominal_discount original type value) (pos 0))
apply_discount original _ _ active = undiscounted original

-- `computeProductEffectivePrice`; `now` is the time that it reads.
unfoldable pub compute_product_effective_price :
    ℤ → ℤ → Option DiscountType → Option ℕ → Option ℕ → Option ℕ → ℕ → EffectivePrice
compute_product_effective_price base_price price_adjustment type value start_at end_at now =
    apply_discount (base_price +ℤ price_adjustment) type value
      (is_active_window start_at end_at now)

pub record IsWithin (p : EffectivePrice) : Type 0 where
  pub unit_nonneg : pos 0 ≤ℤ p.unit_price
  pub unit_le : p.unit_price ≤ℤ p.original_price
  pub adds_up : p.unit_price +ℤ p.discount_amount ≡ p.original_price

-- A fraction that is not negative rounds to a number that is not negative.
pub round-nonneg : (a : ℤ) (d : ℕ) → pos 0 ≤ℤ a → pos 0 ≤ℤ round (over a d)
unfolding round
round-nonneg a d h =
    floor_div-nonneg (pos 2 *ℤ a +ℤ pos (suc d)) (2 * suc d)
      (omega (int_laws, *ℤ-nonneg (pos 2) a (omega arith) h))

nominal_discount-nonneg :
    (original : ℤ) (type : DiscountType) (value : ℕ)
    → pos 0 ≤ℤ original
    → pos 0 ≤ℤ nominal_discount original type value
nominal_discount-nonneg original percent value h =
    round-nonneg (original *ℤ pos value) 99 (*ℤ-nonneg original (pos value) h (omega arith))
nominal_discount-nonneg original fixed value h = omega arith

undiscounted-IsWithin : (original : ℤ) → pos 0 ≤ℤ original → IsWithin (undiscounted original)
undiscounted-IsWithin original h = record {
  unit_nonneg = h;
  unit_le = omega arith;
  adds_up = omega int_laws;
}

discounted-IsWithin :
    (original discount : ℤ)
    → pos 0 ≤ℤ original
    → pos 0 ≤ℤ discount
    → IsWithin (discounted original (max_ℤ (original -ℤ discount) (pos 0)))
discounted-IsWithin original discount h k = record {
  unit_nonneg = ground (arith, -ℤ_parts original discount);
  unit_le = ground (arith, -ℤ_parts original discount);
  adds_up = omega int_laws;
}

apply_discount-IsWithin :
    (original : ℤ) (type : Option DiscountType) (value : Option ℕ) (active : Bool)
    → pos 0 ≤ℤ original
    → IsWithin (apply_discount original type value active)
apply_discount-IsWithin original (some type) (some value) active h =
    elim (Bool-cases (value == 0 || not active)) [
      | inl off ↦ rw off (undiscounted-IsWithin original h)
      | inr on ↦ rw on (
          discounted-IsWithin original (nominal_discount original type value) h
            (nominal_discount-nonneg original type value h))
    ]
apply_discount-IsWithin original (some type) none active h = undiscounted-IsWithin original h
apply_discount-IsWithin original none value active h = undiscounted-IsWithin original h

-- Whatever discount is configured, a price that is not negative stays between 0 and the price
-- before the discount, and the discount that is reported is the difference.
pub compute_product_effective_price-IsWithin :
    (base adjustment : ℤ) (type : Option DiscountType) (value start_at end_at : Option ℕ) (now : ℕ)
    → pos 0 ≤ℤ base +ℤ adjustment
    → IsWithin (compute_product_effective_price base adjustment type value start_at end_at now)
unfolding compute_product_effective_price
compute_product_effective_price-IsWithin base adjustment type value start_at end_at now h =
    apply_discount-IsWithin (base +ℤ adjustment) type value (is_active_window start_at end_at now) h

-- Outside its window a discount changes nothing.
compute_product_effective_price_inactive :
    (base adjustment : ℤ) (type : Option DiscountType) (value start_at end_at : Option ℕ) (now : ℕ)
    → is_active_window start_at end_at now ≡ false
    → compute_product_effective_price base adjustment type value start_at end_at now
      ≡ undiscounted (base +ℤ adjustment)
unfolding compute_product_effective_price
compute_product_effective_price_inactive base adjustment type value start_at end_at now h =
    rw h (ground arith)
