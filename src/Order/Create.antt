-- ===== src/Order/Create.antt =====
-- `createOrder` of src/services/order/order.service.ts. A shipping cost that is not whole has no
-- value in the `Int` column of an order, and the order is refused: here before the payment is
-- planned, in the code where the row is created. Numbers, names and address copies are left out.
pub mod Check
pub mod Stock
pub mod Payment
use Prim.Native.String.{String}
use e_commerce_nodejs.Base.{
  ℕ, ◌+◌, ◌-◌, ◌*◌, suc, Bool, true, false, not, ◌&&◌, ◌||◌, Option, none, some, List, [], ◌∷◌, map,
  any, filter, find_by, includes, length, is_none, ltb, leb, ◌==◌, if◌then◌else◌, non_empty,
}
use e_commerce_nodejs.Base.Int.{
  ℤ, pos, pos_part, neg_part, ◌+ℤ◌, ◌-ℤ◌, ◌*ℤ◌, floor_div, leb_ℤ, ltb_ℤ, max_ℤ, min_ℤ,
}
use e_commerce_nodejs.Pricing.Fraction.{Fraction, over}
use e_commerce_nodejs.Pricing.Allocation.{allocate_proportionally}
use e_commerce_nodejs.Store.{
  Db, Order, OrderItem, OrderStatus, PaymentMethod, PaymentStatus, PaymentGateway, Wallet,
  WalletTransactionType, TransactionType, DiscountCodeUsage, NotificationType, Address,
  ShippingCompany, CartItem, Cart, Variant, Product, ApiError, bad_request, conflict, internal,
  prisma, M, ok, pure, throw_if, or_throw, gets, when, when_some, for_each, all_of, transaction,
  ◌>>=◌, ◌>>◌, update_variants, create_order_row, create_history, update_wallet,
  create_wallet_transaction, create_transaction, notify_user, notify_admins,
}
use e_commerce_nodejs.Catalog.{recompute_product_aggregates}
use e_commerce_nodejs.Catalog.Stock.{can_spare, remove_stock}
use e_commerce_nodejs.Cart.{CartIdentity, of_user, CartLine, CartSummary, belongs, get_cart}
use e_commerce_nodejs.Discount.{
  DiscountEvaluationResult, is_empty, evaluate_discount_code, record_discount_code_usage,
}
use e_commerce_nodejs.Payment.{get_payment_gateway_by_slug}
use e_commerce_nodejs.Shipping.{
  Geography, is_weighed, own_address, active_company, compute_server_side_distance,
  compute_cart_weight_grams, calculate_shipping_cost,
}
use e_commerce_nodejs.Wallet.{covers, decrement, get_or_create_wallet}
use e_commerce_nodejs.Order.Status.{products_of}
use e_commerce_nodejs.Order.Create.Check.{check_items, is_freight_collect, check_payment_method}

pub record CreateOrderInput : Type 0 where
  pub address_id : ℕ
  pub shipping_company_id : ℕ
  pub payment_method : PaymentMethod
  pub discount_code : Option String
  pub gateway_slug : Option String

-- The discount of an order: the code, the amount and the variants that it falls on.
pub record OrderDiscount : Type 0 where
  pub code_id : Option ℕ
  pub amount : ℤ
  pub variant_ids : List ℕ

unfoldable pub order_discount : ℕ → Option String → ℕ → M OrderDiscount
order_discount user_id none now = pure (record { code_id = none; amount = pos 0; variant_ids = [] })
order_discount user_id (some code) now = do
  e ← evaluate_discount_code code (of_user user_id) now
  pure (record {
    code_id = some e.discount_code_id;
    amount = e.discount_amount;
    variant_ids = e.eligible_variant_ids;
  })

-- The distance of a company that is paid by distance; an address without one is refused.
unfoldable pub shipping_distance : Geography → ShippingCompany → Address → M (Option ℤ)
shipping_distance g company address =
    if is_weighed company
    then (do
      distance ←
          or_throw (compute_server_side_distance g address) (bad_request "distance is not known")
      pure (some distance))
    else pure none

-- A cost that is a whole number.
abbrev pub whole_part : Fraction → Option ℤ
whole_part (over a d) =
    let q = floor_div a (suc d) in
    let rest = a -ℤ q *ℤ pos (suc d) in if pos_part rest + neg_part rest == 0 then some q else none

abbrev or_zero : Option ℤ → ℤ
or_zero none = pos 0
or_zero (some a) = a

-- What the wallet pays, what the gateway pays, and through which.
pub record PaymentPlan : Type 0 where
  pub wallet : Option Wallet
  pub wallet_portion : ℤ
  pub gateway_portion : ℤ
  pub gateway : Option PaymentGateway

unfoldable pub with_gateway : Option Wallet → ℤ → ℤ → Option String → M PaymentPlan
with_gateway w portion rest slug =
    if ltb_ℤ (pos 0) rest
    then (do
      slug ← or_throw (non_empty slug) (bad_request "a gateway is required")
      gateway ← get_payment_gateway_by_slug slug
      pure (record {
        wallet = w;
        wallet_portion = portion;
        gateway_portion = rest;
        gateway = some gateway;
      }))
    else pure
        (record { wallet = w; wallet_portion = portion; gateway_portion = rest; gateway = none })

-- The split of the total between the wallet and the gateway.
unfoldable pub plan_payment : ℕ → PaymentMethod → ℤ → Option String → M PaymentPlan
plan_payment user_id PaymentMethod.freight_collect total slug =
    pure (record { wallet = none; wallet_portion = pos 0; gateway_portion = pos 0; gateway = none })
plan_payment user_id PaymentMethod.gateway total slug = with_gateway none (pos 0) total slug
plan_payment user_id PaymentMethod.wallet total slug = do
  w ← get_or_create_wallet user_id
  throw_if (ltb_ℤ w.balance total) (bad_request "balance is too low")
  with_gateway (some w) total (total -ℤ total) slug
plan_payment user_id PaymentMethod.mixed total slug = do
  w ← get_or_create_wallet user_id
  let portion = min_ℤ w.balance total
  with_gateway (some w) portion (total -ℤ portion) slug

-- `discountPerVariant`: the share of each eligible variant.
abbrev pub share_of : ℕ → List CartLine → List ℤ → ℤ
share_of variant_id (l ∷ ls) (s ∷ ss) =
    if l.variant_id == variant_id then s else share_of variant_id ls ss
share_of variant_id _ _ = pos 0

abbrev pub eligible_lines : List ℕ → List CartLine → List CartLine
eligible_lines ids lines = filter (λ (l : CartLine). includes l.variant_id ids) lines

-- The shares of the eligible lines; without a discount there are none.
unfoldable pub discount_shares : OrderDiscount → List CartLine → List ℤ
discount_shares d lines =
    if ltb_ℤ (pos 0) d.amount
    then allocate_proportionally (pos_part d.amount)
        (map (λ (l : CartLine). l.line_total) (eligible_lines d.variant_ids lines))
    else []

-- The rows of the items, which take their ids from `id` on.
unfoldable pub order_items : ℕ → (ℕ → ℤ) → List CartLine → List OrderItem
order_items id share [] = []
order_items id share (l ∷ ls) =
    record {
      id = id;
      variant_id = l.variant_id;
      price = l.unit_price;
      quantity = l.quantity;
      discount_amount = share l.variant_id;
    }
    ∷ order_items (suc id) share ls

-- What the checks of `createOrder` have settled before the database transaction.
pub record Draft : Type 0 where
  pub user_id : ℕ
  pub method : PaymentMethod
  pub cart : CartSummary
  pub shipping_cost : ℤ
  pub discount : OrderDiscount
  pub total_amount : ℤ
  pub plan : PaymentPlan

abbrev pub is_fully_paid : Draft → Bool
is_fully_paid d =
    not (is_freight_collect d.method)
    && pos_part d.plan.gateway_portion + neg_part d.plan.gateway_portion == 0

abbrev pub first_status : Draft → OrderStatus
first_status d =
    if is_freight_collect d.method || is_fully_paid d
    then OrderStatus.processing
    else OrderStatus.pending_payment

-- The conditional decrement of a variant: no row with enough stock is a conflict.
unfoldable pub take_stock : CartLine → M (Unit {0})
take_stock l = do
  count ← update_variants (can_spare l.variant_id l.quantity) (remove_stock l.quantity)
  throw_if (not (count == 1)) (conflict "not enough stock")

abbrev pub order_row : Draft → ℕ → ℕ → ℕ → Order
order_row d now id item_id = record {
  id = id;
  user_id = d.user_id;
  items =
      order_items item_id
        (λ variant_id.
          share_of variant_id (eligible_lines d.discount.variant_ids d.cart.items)
            (discount_shares d.discount d.cart.items))
        d.cart.items;
  shipping_cost = d.shipping_cost;
  subtotal = d.cart.total;
  discount_amount = d.discount.amount;
  total_amount = d.total_amount;
  discount_code_id = d.discount.code_id;
  payment_method = d.method;
  status = first_status d;
  paid_at = if is_fully_paid d then some now else none;
  tracking_code = none;
  package_number = none;
  created_at = now;
}

unfoldable pub pay_from_wallet : Order → ℕ → Wallet → M (Unit {0})
pay_from_wallet order amount w = do
  update_wallet w.id (decrement amount)
  create_wallet_transaction (record {
    wallet_id = w.id;
    type = WalletTransactionType.purchase;
    amount = amount;
    order_id = some order.id;
  })

unfoldable pub await_gateway : Order → ℕ → PaymentGateway → M (Unit {0})
await_gateway order amount gateway = do
  create_transaction (λ id. record {
    id = id;
    order_id = some order.id;
    gateway_id = some gateway.id;
    user_id = order.user_id;
    type = TransactionType.order_payment;
    amount = amount;
    status = PaymentStatus.pending;
    ref_id = none;
  })
  pure tt

unfoldable pub use_code : Order → ℕ → M (Unit {0})
use_code order code_id = record_discount_code_usage (record {
  discount_code_id = code_id;
  user_id = order.user_id;
  order_id = order.id;
  discount_amount = order.discount_amount;
})

-- `cartItem.deleteMany({ where: { cart: { userId } } })`
unfoldable pub empty_cart_of : ℕ → M (Unit {0})
empty_cart_of user_id db = (
  ok tt,
  record db {
    cart_items =
        filter
          (λ (i : CartItem).
            not (any (λ (c : Cart). c.id == i.cart_id && belongs (of_user user_id) c) db.carts))
          db.cart_items;
  },
)

-- The database transaction of `createOrder`.
unfoldable pub order_writes : Draft → ℕ → M Order
order_writes d now = do
  for_each d.cart.items take_stock
  order ← create_order_row (order_row d now)
  create_history (record { order_id = order.id; status = order.status; note = none })
  when (ltb_ℤ (pos 0) d.plan.wallet_portion)
      (when_some d.plan.wallet (pay_from_wallet order (pos_part d.plan.wallet_portion)))
  when (ltb_ℤ (pos 0) d.plan.gateway_portion)
      (when_some d.plan.gateway (await_gateway order (pos_part d.plan.gateway_portion)))
  when_some d.discount.code_id (use_code order)
  empty_cart_of d.user_id
  pure order

-- The database transaction and what follows it.
unfoldable pub place_order : Draft → ℕ → M Order
place_order d now = do
  order ← transaction (order_writes d now)
  product_ids ← gets (products_of (map (λ (l : CartLine). l.variant_id) d.cart.items))
  all_of product_ids recompute_product_aggregates
  notify_user d.user_id NotificationType.order
  notify_admins NotificationType.order
  pure order

-- `createOrder`; `threshold` is `priceChangeThresholdPercent`.
unfoldable pub create_order :
    Geography → (threshold : Fraction) → ℕ → CreateOrderInput → ℕ → M Order
create_order g threshold user_id input now = do
  cart ← get_cart (of_user user_id)
  throw_if (is_empty cart.items) (bad_request "cart is empty")
  throw_if (any (λ (l : CartLine). not l.is_available) cart.items) (bad_request "not available")
  check_items threshold cart.items
  address ← own_address user_id input.address_id
  company ← active_company input.shipping_company_id
  check_payment_method input.payment_method company
  distance ← shipping_distance g company address
  shipping_cost ←
      or_throw
        (whole_part
          (calculate_shipping_cost company (compute_cart_weight_grams cart) (or_zero distance)))
        (prisma "validation")
  discount ← order_discount user_id (non_empty input.discount_code) now
  let total = max_ℤ (pos 0) (cart.total +ℤ shipping_cost -ℤ discount.amount)
  plan ← plan_payment user_id input.payment_method total input.gateway_slug
  place_order
      (record {
        user_id = user_id;
        method = input.payment_method;
        cart = cart;
        shipping_cost = shipping_cost;
        discount = discount;
        total_amount = total;
        plan = plan;
      })
      now
