-- ===== src/Pricing/Engine/Laws.antt =====
-- The final price and the discount of the pricing engine.
use e_commerce_nodejs.Base.{
  ℕ, ◌≡◌, Bool-cases, inl, inr, Option, none, some, OnSome, List, ◌==◌, arith, refl, true, min, suc,
  ◌*◌, ◌-◌, ap, ◌≤◌, ◌+◌,
}
use mathlib.Core.Option
use e_commerce_nodejs.Base.Int.{ℤ, ◌+ℤ◌, int_laws, pos, negsuc, ◌≤ℤ◌, max_ℤ, min_ℤ, pos_part}
use e_commerce_nodejs.Pricing.Fraction.{Fraction, round, over, whole}
use e_commerce_nodejs.Pricing.Engine.{
  PricingMode, currency_based, DiscountType, Modifier, ProductPricingInput, PriceBreakdown,
  discounted, apply_product_discount, fixed_breakdown, currency_breakdown, calculate_final_price,
  build_variant_modifiers, calculate_variant_price,
}
use e_commerce_nodejs.Pricing.Rounding.{
  *ℤ-pos, round-whole, round-pos-nonneg, round-negsuc, round-clamp, clamp-negsuc,
}
use e_commerce_nodejs.Pricing.Percentage.{percentage-le, percentage-ge}
use native.Mathlib.Nat.{mul-le-mul_right}

apply_product_discount-adds_up :
    (price : Fraction) (type : Option DiscountType) (value : Option ℕ)
    → (apply_product_discount price type value).0 +ℤ (apply_product_discount price type value).1
      ≡ round price
unfolding apply_product_discount discounted
apply_product_discount-adds_up price none value = omega int_laws
apply_product_discount-adds_up price (some type) none = omega int_laws
apply_product_discount-adds_up price (some type) (some value) = elim (Bool-cases (value == 0)) [
  | inl off ↦ rw off (omega int_laws)
  | inr on ↦ rw on (omega int_laws)
]

-- `part` is a percentage of `whole`, up to one unit.
abbrev pub IsPercentage : (percents : ℕ) (whole part : ℤ) → Type 0
IsPercentage m a d =
    (100 * pos_part d ≤ m * pos_part a + 100) × (m * pos_part a ≤ 100 * pos_part d + 100)

-- The discount that belongs to a price before it: nothing without a discount, all of the price up to the
-- fixed amount, and that part of the price for a percentage; and nothing of a price below 0.
abbrev pub IsDiscountOf : Option DiscountType → Option ℕ → (original discount : ℤ) → Type 0
IsDiscountOf none value original discount = discount ≡ pos 0
IsDiscountOf (some type) none original discount = discount ≡ pos 0
IsDiscountOf (some DiscountType.fixed) (some value) original discount =
    discount ≡ max_ℤ (pos 0) (min_ℤ (pos value) original)
IsDiscountOf (some DiscountType.percent) (some value) original discount =
    (pos 0 ≤ℤ discount)
    × ((discount ≤ℤ max_ℤ (pos 0) original) × IsPercentage (min value 100) original discount)

-- The smaller of a rounded percentage and the rounded price.
min_ℤ-IsPercentage :
    (n b m : ℕ)
    → m ≤ 100
    → IsPercentage m
        (round (over (pos n) b))
        (min_ℤ (round (over (pos (n * m)) (suc b * 100 - 1))) (round (over (pos n) b)))
min_ℤ-IsPercentage n b m le =
    let above = percentage-le n b m le in
    let below = percentage-ge n b m le in
    let part = round-pos-nonneg (n * m) (suc b * 100 - 1) in
    let price = round-pos-nonneg n b in
    let all : m * pos_part (round (over (pos n) b)) ≤ 100 * pos_part (round (over (pos n) b)) =
      mul-le-mul_right (pos_part (round (over (pos n) b))) le in
    (ground (arith, above, below, part, price, all), ground (arith, above, below, part, price, all))

off-IsDiscountOf :
    (type : DiscountType) (value : ℕ) (original : ℤ)
    → (value == 0) ≡ true
    → IsDiscountOf (some type) (some value) original (pos 0)
off-IsDiscountOf DiscountType.fixed value original h = ground arith
off-IsDiscountOf DiscountType.percent value original h =
    let none_off : min value 100 * pos_part original ≡ 0 * pos_part original =
      ap (λ (k : ℕ). k * pos_part original) (ground arith) in
    (omega arith, (ground arith, (omega arith, omega (arith, none_off))))

discounted-IsDiscountOf :
    (price : Fraction) (type : DiscountType) (value : ℕ)
    → IsDiscountOf (some type) (some value) (round price) (discounted price type value).1
unfolding discounted
discounted-IsDiscountOf (over (pos n) b) DiscountType.fixed value =
    let nonneg = round-pos-nonneg n b in
    rw (round-clamp value 0 n b, round-whole value) (ground (arith, nonneg))
discounted-IsDiscountOf (over (pos n) b) DiscountType.percent value =
    let raw = round-pos-nonneg (n * min value 100) (suc b * 100 - 1) in
    let nonneg = round-pos-nonneg n b in
    rw (*ℤ-pos n (min value 100), round-clamp (n * min value 100) (suc b * 100 - 1) n b)
      (
        ground (arith, raw, nonneg),
        (ground (arith, raw, nonneg), min_ℤ-IsPercentage n b (min value 100) (omega arith)),
      )
discounted-IsDiscountOf (over (negsuc n) b) DiscountType.fixed value =
    let negative = round-negsuc n b in
    rw (clamp-negsuc (whole (pos value)) n b, round-whole 0) (ground (arith, negative))
discounted-IsDiscountOf (over (negsuc n) b) DiscountType.percent value =
    let negative = round-negsuc n b in
    let nothing : pos_part (round (over (negsuc n) b)) ≡ 0 = ground (arith, negative) in
    rw (clamp-negsuc _ n b, round-whole 0)
      (omega arith, (ground arith, (omega arith, rw nothing (omega arith))))

apply_product_discount-IsDiscountOf :
    (price : Fraction) (type : Option DiscountType) (value : Option ℕ)
    → IsDiscountOf type value (round price) (apply_product_discount price type value).1
unfolding apply_product_discount
apply_product_discount-IsDiscountOf price none value = refl
apply_product_discount-IsDiscountOf price (some type) none = refl
apply_product_discount-IsDiscountOf price (some type) (some value) =
    elim (Bool-cases (value == 0)) [
      | inl off ↦ rw off (off-IsDiscountOf type value (round price) off)
      | inr on ↦ rw on (discounted-IsDiscountOf price type value)
    ]

-- The price before the discount, its discount, and what is left of it.
abbrev pub IsPriced : Option DiscountType → Option ℕ → PriceBreakdown → Type 0
IsPriced type value b =
    IsDiscountOf type value b.original_price_irt b.discount_amount
    × (b.final_price_irt +ℤ b.discount_amount ≡ b.original_price_irt)

map-OnSome :
    {A B : Type 0} (P : B → Type 0) (f : A → B) (o : Option A)
    → ((a : A) → P (f a))
    → OnSome P (Option.map f o)
map-OnSome P f none h = tt
map-OnSome P f (some a) h = h a

calculate_final_price-IsPriced :
    (mode : PricingMode) (product : ProductPricingInput) (currency : Option (Option Fraction))
    (modifiers : List Modifier)
    → OnSome
        (IsPriced product.discount_type product.discount_value)
        (calculate_final_price (record product { pricing_mode = mode }) currency modifiers)
unfolding calculate_final_price fixed_breakdown currency_breakdown
calculate_final_price-IsPriced PricingMode.fixed_irt product currency modifiers =
    map-OnSome (IsPriced product.discount_type product.discount_value) _ _ (λ sums. (
      apply_product_discount-IsDiscountOf _ product.discount_type product.discount_value,
      apply_product_discount-adds_up _ product.discount_type product.discount_value,
    ))
calculate_final_price-IsPriced currency_based product currency modifiers = (
  apply_product_discount-IsDiscountOf _ product.discount_type product.discount_value,
  apply_product_discount-adds_up _ product.discount_type product.discount_value,
)

-- In both pricing modes and for all modifiers, where the engine gives a price for a variant, the final
-- price and the discount add up to the price before the discount. Without a discount that is 0; a fixed
-- one is its value, cut to lie between 0 and that price, and a percentage, of 100 at
-- most, is that part of that price up to one unit, and lies between 0 and that price; of a price
-- below 0 it is 0.
pub calculate_variant_price-IsPriced :
    (product : ProductPricingInput) (currency : Option (Option Fraction)) (adjustment : ℤ)
    (attribute_values : List Modifier)
    → OnSome
        (IsPriced product.discount_type product.discount_value)
        (calculate_variant_price product currency adjustment attribute_values)
unfolding calculate_variant_price
calculate_variant_price-IsPriced product currency adjustment attribute_values =
    calculate_final_price-IsPriced product.pricing_mode product currency
      (build_variant_modifiers adjustment attribute_values)
