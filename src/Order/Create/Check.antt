-- ===== src/Order/Create/Check.antt =====
-- The checks of `createOrder` on the items and on the payment method
-- (src/services/order/order.service.ts).
use e_commerce_nodejs.Base.{◌+◌, ◌*◌, suc, Bool, true, false, not, ◌&&◌, List}
use e_commerce_nodejs.Base.Int.{ℤ, pos, ◌-ℤ◌, pos_part, neg_part}
use e_commerce_nodejs.Pricing.Fraction.{Fraction, over, at_most}
use e_commerce_nodejs.Store.{
  PaymentMethod, ShippingCompany, bad_request, conflict, internal, M, throw_if, or_throw, gets,
  for_each, ◌>>=◌, ◌>>◌, no_row, find_variant, find_product,
}
use e_commerce_nodejs.Cart.{CartLine, effective_price}

-- `Math.abs(fresh - cart) / cart * 100 > threshold`, for a cart price above 0.
unfoldable pub has_changed : Fraction → ℤ → ℤ → Bool
has_changed threshold fresh (pos (suc n)) =
    let change = fresh -ℤ pos (suc n) in
    not (at_most (over (pos ((pos_part change + neg_part change) * 100)) n) threshold)
has_changed threshold fresh _ = false

-- The price of an item now, next to the price in the cart.
unfoldable pub check_item : Fraction → CartLine → M (Unit {0})
check_item threshold item = do
  v ← or_throw (← gets (find_variant item.variant_id)) (conflict "variant is gone")
  product ← or_throw (← gets (find_product v.product_id)) no_row
  price ← or_throw (effective_price product v) (internal "price")
  throw_if (has_changed threshold price.unit_price item.unit_price) (conflict "price has changed")

unfoldable pub check_items : Fraction → List CartLine → M (Unit {0})
check_items threshold items = for_each items (check_item threshold)

abbrev pub is_freight_collect : PaymentMethod → Bool
is_freight_collect PaymentMethod.freight_collect = true
is_freight_collect _ = false

-- Whether the shipping company takes this way of paying.
unfoldable pub check_payment_method : PaymentMethod → ShippingCompany → M (Unit {0})
check_payment_method method company = do
  throw_if (is_freight_collect method && not company.accepts_freight_collect)
      (bad_request "company does not collect freight")
  throw_if (not (is_freight_collect method) && not company.accepts_prepay)
      (bad_request "company takes no prepayment")
