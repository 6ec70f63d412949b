-- ===== src/Cart.antt =====
-- The summary of a cart: src/services/shopping/cart.service.ts, with `CartIdentity` of
-- src/utils/cartIdentity.ts. The items of a cart are joined with their variants and products, which
-- the foreign keys give; names, slugs, labels and images are left out.
pub mod Items
pub mod Laws
pub mod Totals
pub mod Limits
use Prim.Native.String.{String}
use text.Mathlib.Text.{◌==◌ as str_eq}
use mathlib.Core.Option
use e_commerce_nodejs.Base.{
  ℕ, ◌+◌, Bool, true, false, ◌&&◌, Option, none, some, List, [], ◌∷◌, filter, find_by, includes,
  sum_of, if_found, ltb, ◌==◌, if◌then◌else◌,
}
use e_commerce_nodejs.Base.Int.{ℤ, pos, ◌+ℤ◌, ◌-ℤ◌, ◌*ℤ◌}
use e_commerce_nodejs.Pricing.Fraction.{Fraction}
use e_commerce_nodejs.Pricing.Engine.{PriceBreakdown, calculate_variant_price}
use e_commerce_nodejs.Pricing.Effective.{EffectivePrice, compute_product_effective_price}
use e_commerce_nodejs.Catalog.{pricing_input}
use e_commerce_nodejs.Store.{
  Db, Cart, CartItem, Product, Variant, M, internal, or_throw, gets, pure, ◌>>=◌, find_variant,
  find_product,
}

pub data CartIdentity : Type 0 where
  of_user : ℕ → CartIdentity
  of_guest : String → CartIdentity

pub record CartLine : Type 0 where
  pub id : ℕ
  pub variant_id : ℕ
  pub product_id : ℕ
  pub category_ids : List ℕ
  pub quantity : ℕ
  pub unit_price : ℤ
  pub original_price : ℤ
  pub line_total : ℤ
  pub is_available : Bool
  pub available_stock : ℕ
  pub weight : Option Fraction

pub record CartSummary : Type 0 where
  pub id : Option ℕ
  pub item_count : ℕ
  pub subtotal : ℤ
  pub total_discount : ℤ
  pub total : ℤ
  pub items : List CartLine

-- `whereForIdentity`
abbrev pub belongs : CartIdentity → Cart → Bool
belongs (of_user id) cart = elim cart.user_id [ none ↦ false | some owner ↦ owner == id ]
belongs (of_guest token) cart = elim cart.guest_token [ none ↦ false | some t ↦ str_eq t token ]

-- `findRawCart`
abbrev pub find_cart : CartIdentity → Db → Option Cart
find_cart identity db = find_by (belongs identity) db.carts

abbrev pub items_of : Cart → Db → List CartItem
items_of cart db = filter (λ (i : CartItem). i.cart_id == cart.id) db.cart_items

-- `computeVariantOriginalPrice`: the engine's price without the discount of the product.
unfoldable pub compute_variant_original_price : Product → Variant → Option ℤ
compute_variant_original_price product v =
    Option.map (λ (b : PriceBreakdown). b.final_price_irt)
      (calculate_variant_price
        (record (pricing_input product) { discount_type = none; discount_value = none })
        product.currency v.price_adjustment v.attribute_values)

-- The price now of a variant: its discount has no window, so no time is read.
unfoldable pub effective_price : Product → Variant → Option EffectivePrice
effective_price product v =
    Option.map
      (λ (original : ℤ).
        compute_product_effective_price original (pos 0) product.discount_type
          product.discount_value none none 0)
      (compute_variant_original_price product v)

abbrev pub line : CartItem → Variant → Product → EffectivePrice → CartLine
line item v product price = record {
  id = item.id;
  variant_id = v.id;
  product_id = product.id;
  category_ids = product.category_ids;
  quantity = item.quantity;
  unit_price = price.unit_price;
  original_price = price.original_price;
  line_total = price.unit_price *ℤ pos item.quantity;
  is_available = v.is_active && product.is_published && ltb 0 v.stock;
  available_stock = v.stock;
  weight = v.weight;
}

abbrev pub priced_line : CartItem → Variant → Product → Option CartLine
priced_line item v product =
    if_found (effective_price product v) (λ price. some (line item v product price))

abbrev pub joined_line : Db → CartItem → Variant → Option CartLine
joined_line db item v = if_found (find_product v.product_id db) (priced_line item v)

-- `none` is an error that the price engine throws.
unfoldable pub line_of : Db → CartItem → Option CartLine
line_of db item = if_found (find_variant item.variant_id db) (joined_line db item)

abbrev pub cons_line : Option (List CartLine) → CartLine → Option (List CartLine)
cons_line rest l = if_found rest (λ ls. some (l ∷ ls))

unfoldable pub lines_of : Db → List CartItem → Option (List CartLine)
lines_of db [] = some []
lines_of db (i ∷ is) = if_found (line_of db i) (cons_line (lines_of db is))

abbrev pub sum_lines : (CartLine → ℤ) → List CartLine → ℤ
sum_lines f [] = pos 0
sum_lines f (l ∷ ls) = f l +ℤ sum_lines f ls

-- `summarize` of the lines of a cart.
unfoldable pub summary_of : Option ℕ → List CartLine → CartSummary
summary_of id items = record {
  id = id;
  item_count = sum_of (λ (l : CartLine). l.quantity) items;
  subtotal = sum_lines (λ l. l.original_price *ℤ pos l.quantity) items;
  total_discount = sum_lines (λ l. (l.original_price -ℤ l.unit_price) *ℤ pos l.quantity) items;
  total = sum_lines (λ l. l.line_total) items;
  items = items;
}

-- `getCart`
unfoldable pub summarize : Option Cart → M CartSummary
summarize none = pure (summary_of none [])
summarize (some cart) = do
  lines ← or_throw (← gets (λ db. lines_of db (items_of cart db))) (internal "price")
  pure (summary_of (some cart.id) lines)

unfoldable pub get_cart : CartIdentity → M CartSummary
get_cart identity = do cart ← gets (find_cart identity); summarize cart
