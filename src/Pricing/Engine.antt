-- ===== src/Pricing/Engine.antt =====
-- src/services/pricingEngine.ts: the price of a variant of a product.
pub mod Laws
use mathlib.Core.Option
use e_commerce_nodejs.Base.{
  ℕ, suc, ◌+◌, ◌-◌, ◌*◌, Bool, true, false, Option, none, some, List, [], ◌∷◌, ◌++◌, ◌==◌, min,
  or_else, if◌then◌else◌,
}
use e_commerce_nodejs.Base.Int.{ℤ, pos, ◌+ℤ◌, ◌-ℤ◌, ◌*ℤ◌, floor_div, pos_part, neg_part}
use e_commerce_nodejs.Pricing.Fraction.{
  Fraction, over, whole, add, subtract, times, per_cent, minimum, maximum, round,
}

pub data PricingMode : Type 0 where
  fixed_irt currency_based : PricingMode

pub data ModifierType : Type 0 where
  percentage fixed_source_currency fixed_irt : ModifierType

pub data DiscountType : Type 0 where
  percent fixed : DiscountType

pub record Modifier : Type 0 where
  pub modifier_type : Option ModifierType
  pub modifier_value : Option Fraction

pub record ProductPricingInput : Type 0 where
  pub pricing_mode : PricingMode
  pub base_price : ℤ
  pub source_price : Option Fraction
  pub price_buffer_percent : Option Fraction
  pub discount_type : Option DiscountType
  pub discount_value : Option ℕ

pub record PriceBreakdown : Type 0 where
  pub final_price_irt : ℤ
  pub original_price_irt : ℤ
  pub discount_amount : ℤ
  pub source_amount : Fraction
  pub rate_used : Option Fraction
  pub buffer_applied : Option Fraction
  pub fixed_irt_adjustments : Fraction
  pub total_adjustments : Fraction

abbrev pub zero_fraction : Fraction
zero_fraction = whole (pos 0)

-- The discount before rounding: a percentage is capped at 100.
abbrev pub raw_discount : Fraction → DiscountType → ℕ → Fraction
raw_discount price DiscountType.percent value = times price (per_cent (whole (pos (min value 100))))
raw_discount price DiscountType.fixed value = whole (pos value)

-- `applyProductDiscount`: the final price and the discount.
unfoldable pub discounted : Fraction → DiscountType → ℕ → ℤ × ℤ
discounted price type value =
    let discount = round (maximum zero_fraction (minimum (raw_discount price type value) price)) in
    (round price -ℤ discount, discount)

unfoldable pub apply_product_discount : Fraction → Option DiscountType → Option ℕ → ℤ × ℤ
apply_product_discount price (some type) (some value) =
    if value == 0 then (round price, pos 0) else discounted price type value
apply_product_discount price _ _ = (round price, pos 0)

abbrev pub value_of : Modifier → Fraction
value_of m = or_else m.modifier_value zero_fraction

-- `throw new Error("Invalid modifier type ...")` is `none`. The pair is the fixed sum and the
-- percentage sum.
abbrev pub add_fixed_modifier :
    Option ModifierType → Fraction → Fraction × Fraction → Option (Fraction × Fraction)
add_fixed_modifier none v acc = some acc
add_fixed_modifier (some ModifierType.fixed_irt) v (adjustments, percents) =
    some (add adjustments v, percents)
add_fixed_modifier (some percentage) v (adjustments, percents) = some (adjustments, add percents v)
add_fixed_modifier (some fixed_source_currency) v acc = none

abbrev continue :
    Option (Fraction × Fraction)
    → (Fraction × Fraction → Option (Fraction × Fraction))
    → Option (Fraction × Fraction)
continue none k = none
continue (some acc) k = k acc

-- The loop of the FIXED_IRT branch.
pub fixed_sums : List Modifier → Fraction × Fraction → Option (Fraction × Fraction)
fixed_sums [] acc = some acc
fixed_sums (m ∷ ms) acc =
    continue (add_fixed_modifier m.modifier_type (value_of m) acc) (fixed_sums ms)

fixed_breakdown : ProductPricingInput → Fraction × Fraction → PriceBreakdown
fixed_breakdown product (adjustments, percents) =
    let base = whole product.base_price in
    let percent_adjustment = times base (per_cent percents) in
    let price = add (add base adjustments) percent_adjustment in
    let (final, discount) =
      apply_product_discount price product.discount_type product.discount_value in
    record {
      final_price_irt = final;
      original_price_irt = round price;
      discount_amount = discount;
      source_amount = base;
      rate_used = none;
      buffer_applied = none;
      fixed_irt_adjustments = adjustments;
      total_adjustments = add adjustments percent_adjustment;
    }

-- The first loop of the CURRENCY_BASED branch.
abbrev pub add_source_modifier : Fraction → Option ModifierType → Fraction → Fraction → Fraction
add_source_modifier base (some percentage) v amount = add amount (times base (per_cent v))
add_source_modifier base (some fixed_source_currency) v amount = add amount v
add_source_modifier base _ v amount = amount

pub source_sum : Fraction → List Modifier → Fraction → Fraction
source_sum base [] amount = amount
source_sum base (m ∷ ms) amount =
    source_sum base ms (add_source_modifier base m.modifier_type (value_of m) amount)

-- The second loop: the Toman price and the sum of the fixed adjustments.
abbrev pub add_irt_modifier :
    Option ModifierType → Fraction → Fraction × Fraction → Fraction × Fraction
add_irt_modifier (some ModifierType.fixed_irt) v (converted, adjustments) =
    (add converted v, add adjustments v)
add_irt_modifier _ v acc = acc

pub irt_sums : List Modifier → Fraction × Fraction → Fraction × Fraction
irt_sums [] acc = acc
irt_sums (m ∷ ms) acc = irt_sums ms (add_irt_modifier m.modifier_type (value_of m) acc)

-- `if (product.priceBufferPercent)`: a buffer of 0 is none.
abbrev pub nonzero : Option Fraction → Option Fraction
nonzero none = none
nonzero (some (over a b)) = if pos_part a + neg_part a == 0 then none else some (over a b)

abbrev pub with_buffer : Fraction → Option Fraction → Fraction
with_buffer converted none = converted
with_buffer converted (some p) = add converted (times converted (per_cent p))

currency_breakdown : ProductPricingInput → Option (Option Fraction) → List Modifier → PriceBreakdown
currency_breakdown product currency modifiers =
    let base = or_else product.source_price zero_fraction in
    let source = source_sum base modifiers base in
    let rate = or_else (or_else currency none) zero_fraction in
    let buffer = nonzero product.price_buffer_percent in
    let (price, adjustments) =
      irt_sums modifiers (with_buffer (times source rate) buffer, zero_fraction) in
    let (final, discount) =
      apply_product_discount price product.discount_type product.discount_value in
    record {
      final_price_irt = final;
      original_price_irt = round price;
      discount_amount = discount;
      source_amount = source;
      rate_used = some rate;
      buffer_applied = buffer;
      fixed_irt_adjustments = adjustments;
      total_adjustments = subtract source base;
    }

abbrev branch :
    PricingMode
    → ProductPricingInput
    → Option (Option Fraction)
    → List Modifier
    → Option PriceBreakdown
branch PricingMode.fixed_irt product currency modifiers =
    Option.map (fixed_breakdown product) (fixed_sums modifiers (zero_fraction, zero_fraction))
branch currency_based product currency modifiers =
    some (currency_breakdown product currency modifiers)

-- `calculateFinalPrice`; `currency` is its `currentRate`, if the product has a currency.
unfoldable pub calculate_final_price :
    ProductPricingInput → Option (Option Fraction) → List Modifier → Option PriceBreakdown
unfolding fixed_breakdown currency_breakdown fixed_sums source_sum irt_sums
calculate_final_price product currency modifiers =
    branch product.pricing_mode product currency modifiers

-- `buildVariantModifiers`: `priceAdjustment` is one more fixed modifier, unless it is 0.
unfoldable pub build_variant_modifiers : ℤ → List Modifier → List Modifier
build_variant_modifiers adjustment attribute_values =
    if pos_part adjustment + neg_part adjustment == 0
    then attribute_values
    else attribute_values
      ++ record {
        modifier_type = some ModifierType.fixed_irt;
        modifier_value = some (whole adjustment);
      }
        ∷ []

-- `calculateVariantPrice`
unfoldable pub calculate_variant_price :
    ProductPricingInput → Option (Option Fraction) → ℤ → List Modifier → Option PriceBreakdown
calculate_variant_price product currency adjustment attribute_values =
    calculate_final_price product currency (build_variant_modifiers adjustment attribute_values)
