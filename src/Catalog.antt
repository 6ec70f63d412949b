-- ===== src/Catalog.antt =====
-- `recomputeProductAggregates` of src/services/catalog/product.service.ts: the columns of a product
-- that summarise its active variants.
pub mod Stock
pub mod Frame
pub mod Aggregates
pub mod Categories
pub mod Slugs
pub mod Brands
use e_commerce_nodejs.Base.{
  ℕ, Bool, true, false, ◌&&◌, Option, none, some, List, [], ◌∷◌, any, filter, ltb, ◌==◌,
  if◌then◌else◌,
}
use e_commerce_nodejs.Base.Int.{ℤ, pos, min_ℤ, max_ℤ}
use mathlib.Core.Option
use e_commerce_nodejs.Pricing.Engine.{
  DiscountType, ProductPricingInput, PriceBreakdown, calculate_variant_price,
}
use e_commerce_nodejs.Store.{
  Db, Product, Variant, M, ok, internal, pure, gets, or_throw, when_some, ◌>>=◌, ◌>>◌,
  update_product, find_product,
}

-- Whether the product's discount is on.
abbrev pub is_discount_on : Option DiscountType → Option ℕ → Bool
is_discount_on (some type) (some value) = ltb 0 value
is_discount_on _ _ = false

abbrev pub pricing_input : Product → ProductPricingInput
pricing_input product = record {
  pricing_mode = product.pricing_mode;
  base_price = product.base_price;
  source_price = product.source_price;
  price_buffer_percent = product.price_buffer_percent;
  discount_type = product.discount_type;
  discount_value = product.discount_value;
}

-- The final price of a variant; `none` is the error that the engine throws.
unfoldable pub variant_price : Product → Variant → Option ℤ
variant_price product v =
    Option.map (λ (b : PriceBreakdown). b.final_price_irt)
      (calculate_variant_price (pricing_input product) product.currency v.price_adjustment
        v.attribute_values)

abbrev pub cons_price : Option ℤ → Option (List ℤ) → Option (List ℤ)
cons_price none prices = none
cons_price (some p) none = none
cons_price (some p) (some ps) = some (p ∷ ps)

unfoldable pub prices_of : Product → List Variant → Option (List ℤ)
prices_of product [] = some []
prices_of product (v ∷ vs) = cons_price (variant_price product v) (prices_of product vs)

-- `Math.min(...prices)` and `Math.max(...prices)` of one price or more.
abbrev pub lowest : ℤ → List ℤ → ℤ
lowest p [] = p
lowest p (q ∷ qs) = min_ℤ p (lowest q qs)

abbrev pub highest : ℤ → List ℤ → ℤ
highest p [] = p
highest p (q ∷ qs) = max_ℤ p (highest q qs)

-- The columns written for the prices found; none are found only where there is no active variant.
abbrev pub aggregate : List ℤ → Bool → Product → Product
aggregate [] in_stock product = record product {
  min_price = pos 0;
  max_price = pos 0;
  is_in_stock = false;
  has_active_discount = false;
}
aggregate (p ∷ ps) in_stock product = record product {
  min_price = lowest p ps;
  max_price = highest p ps;
  is_in_stock = in_stock;
  has_active_discount = is_discount_on product.discount_type product.discount_value;
}

abbrev pub active_variants : ℕ → Db → List Variant
active_variants product_id db = filter (λ v. v.product_id == product_id && v.is_active) db.variants

unfoldable pub refresh : Product → M (Unit {0})
refresh product = do
  variants ← gets (active_variants product.id)
  prices ← or_throw (prices_of product variants) (internal "invalid modifier type")
  update_product product.id (aggregate prices (any (λ v. ltb 0 v.stock) variants))

unfoldable pub recompute_product_aggregates : ℕ → M (Unit {0})
recompute_product_aggregates product_id = do
  product ← gets (find_product product_id)
  when_some product refresh
