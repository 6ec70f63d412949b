-- ===== src/Order/Ledger.antt =====
-- The order services keep the wallet ledger, whether they return or throw.
use Prim.Native.String.{String}
use e_commerce_nodejs.Base.{ℕ, Option, none, some, List, [], ◌∷◌}
use e_commerce_nodejs.Base.Int.{ℤ}
use e_commerce_nodejs.Pricing.Fraction.{Fraction}
use e_commerce_nodejs.Store.{
  Order, OrderReturn, ReturnStatus, PaymentMethod, Wallet, Address, ShippingCompany, Preserves,
  Preserves-pure, guarded-Preserves, no_row, DiscountCode, DiscountCodeUsage,
}
use e_commerce_nodejs.Catalog.Frame.{recompute_product_aggregates-Preserves}
use e_commerce_nodejs.Cart.{CartIdentity}
use e_commerce_nodejs.Cart.Laws.{get_cart-Preserves}
use e_commerce_nodejs.Discount.{
  find_active_code_or_throw, assert_user_eligibility, evaluate_discount_code, create_usage,
  count_usage, record_discount_code_usage,
}
use e_commerce_nodejs.Payment.{GatewayRegistry, ProviderParams}
use e_commerce_nodejs.Shipping.{Geography, own_address, active_company}
use e_commerce_nodejs.Wallet.Ledger.{
  IsLedger, matches_rules, move_funds-IsLedger, record_funds-IsLedger,
}
use e_commerce_nodejs.Wallet.Ledger.Frame.{ledger_rules}
use e_commerce_nodejs.Wallet.Ledger.Services.{
  claim_transaction-IsLedger, get_gateway-IsLedger, get_payment_gateway_by_slug-IsLedger,
}
use e_commerce_nodejs.Order.Cancellation.{restock_item}
use e_commerce_nodejs.Order.Cancellation.Laws.{cancel_order_admin-IsLedger}
use e_commerce_nodejs.Order.Payment.{
  get_owned_order, choose_gateway, initiate_order_payment, settle_order_payment,
  verify_order_payment,
}
use e_commerce_nodejs.Order.Return.{
  assert_media_owned_by_user, request_return, set_order_status, refund_return, refund_branch,
  return_writes, update_return_admin,
}
use e_commerce_nodejs.Order.Admin.{StatusInput, count_sale, write_status, update_order_status_admin}
use e_commerce_nodejs.Order.Create.{
  CreateOrderInput, Draft, order_discount, shipping_distance, with_gateway, plan_payment,
  take_stock, pay_from_wallet, await_gateway, use_code, empty_cart_of, order_writes, place_order,
  create_order,
}
use e_commerce_nodejs.Order.Create.Check.{check_item, check_items, check_payment_method}

ruleset rules = (
  ledger_rules, matches_rules, move_funds-IsLedger, record_funds-IsLedger, get_cart-Preserves,
  claim_transaction-IsLedger, get_gateway-IsLedger, get_payment_gateway_by_slug-IsLedger,
  recompute_product_aggregates-Preserves,
)

choose_gateway-IsLedger :
    (slug : Option String) (id : Option ℕ) → Preserves IsLedger (choose_gateway slug id)
unfolding choose_gateway
choose_gateway-IsLedger (some slug) id = search rules depth 30
choose_gateway-IsLedger none none = search rules depth 30
choose_gateway-IsLedger none (some id) = search rules depth 30

pub initiate_order_payment-IsLedger :
    (registry : GatewayRegistry) (user_id order_id : ℕ) (slug : Option String)
    → Preserves IsLedger (initiate_order_payment registry user_id order_id slug)
unfolding initiate_order_payment get_owned_order
initiate_order_payment-IsLedger registry user_id order_id slug =
    search (rules, choose_gateway-IsLedger) depth 40

pub verify_order_payment-IsLedger :
    (registry : GatewayRegistry) (user_id order_id : ℕ) (params : ProviderParams) (now : ℕ)
    → Preserves IsLedger (verify_order_payment registry user_id order_id params now)
unfolding verify_order_payment get_owned_order settle_order_payment
verify_order_payment-IsLedger registry user_id order_id params now = search rules depth 50

assert_media-IsLedger :
    (ids : List ℕ) (user_id : ℕ) → Preserves IsLedger (assert_media_owned_by_user ids user_id)
unfolding assert_media_owned_by_user
assert_media-IsLedger [] user_id = Preserves-pure tt
assert_media-IsLedger (m ∷ ms) user_id = search rules depth 30

pub request_return-IsLedger :
    (user_id order_id : ℕ) (item_id : Option ℕ) (reason : String) (media : List ℕ)
    → Preserves IsLedger (request_return user_id order_id item_id reason media)
unfolding request_return
request_return-IsLedger user_id order_id item_id reason media =
    search (rules, assert_media-IsLedger) depth 40

refund_return-IsLedger :
    (r : OrderReturn) (order : Order) (amount : ℕ)
    → Preserves IsLedger (refund_return r order amount)
unfolding refund_return
refund_return-IsLedger r order amount = search rules depth 30

return_writes-IsLedger :
    (r : OrderReturn) (order : Order) (status : ReturnStatus) (amount : Option ℕ)
    (admin_note : Option String) (now : ℕ)
    → Preserves IsLedger (return_writes r order status amount admin_note now)
unfolding return_writes refund_branch set_order_status restock_item
return_writes-IsLedger r order status amount admin_note now =
    search (rules, refund_return-IsLedger) depth 40

pub update_return_admin-IsLedger :
    (return_id : ℕ) (status : ReturnStatus) (amount : Option ℕ) (admin_note : Option String)
    (now : ℕ)
    → Preserves IsLedger (update_return_admin return_id status amount admin_note now)
unfolding update_return_admin
update_return_admin-IsLedger return_id status amount admin_note now =
    search (rules, return_writes-IsLedger) depth 40

write_status-IsLedger :
    (order : Order) (input : StatusInput) → Preserves IsLedger (write_status order input)
unfolding write_status count_sale
write_status-IsLedger order input = search rules depth 40

pub update_order_status_admin-IsLedger :
    (order_id : ℕ) (input : StatusInput) (now : ℕ)
    → Preserves IsLedger (update_order_status_admin order_id input now)
unfolding update_order_status_admin
update_order_status_admin-IsLedger order_id input now =
    search (rules, write_status-IsLedger, cancel_order_admin-IsLedger) depth 40

assert_user_eligibility-IsLedger :
    (d : DiscountCode) (user_id : Option ℕ) → Preserves IsLedger (assert_user_eligibility d user_id)
unfolding assert_user_eligibility
assert_user_eligibility-IsLedger d none = search rules depth 30
assert_user_eligibility-IsLedger d (some id) = search rules depth 30

evaluate_discount_code-IsLedger :
    (code : String) (identity : CartIdentity) (now : ℕ)
    → Preserves IsLedger (evaluate_discount_code code identity now)
unfolding evaluate_discount_code find_active_code_or_throw
evaluate_discount_code-IsLedger code identity now =
    search (rules, assert_user_eligibility-IsLedger) depth 50

order_discount-IsLedger :
    (user_id : ℕ) (code : Option String) (now : ℕ)
    → Preserves IsLedger (order_discount user_id code now)
unfolding order_discount
order_discount-IsLedger user_id none now = Preserves-pure _
order_discount-IsLedger user_id (some code) now =
    search (rules, evaluate_discount_code-IsLedger) depth 30

shipping_distance-IsLedger :
    (g : Geography) (company : ShippingCompany) (address : Address)
    → Preserves IsLedger (shipping_distance g company address)
unfolding shipping_distance
shipping_distance-IsLedger g company address = search rules depth 30

with_gateway-IsLedger :
    (w : Option Wallet) (portion rest : ℤ) (slug : Option String)
    → Preserves IsLedger (with_gateway w portion rest slug)
unfolding with_gateway
with_gateway-IsLedger w portion rest slug = search rules depth 30

plan_payment-IsLedger :
    (user_id : ℕ) (method : PaymentMethod) (total : ℤ) (slug : Option String)
    → Preserves IsLedger (plan_payment user_id method total slug)
unfolding plan_payment
plan_payment-IsLedger user_id PaymentMethod.freight_collect total slug = Preserves-pure _
plan_payment-IsLedger user_id PaymentMethod.gateway total slug =
    search (rules, with_gateway-IsLedger) depth 30
plan_payment-IsLedger user_id PaymentMethod.wallet total slug =
    search (rules, with_gateway-IsLedger) depth 30
plan_payment-IsLedger user_id PaymentMethod.mixed total slug =
    search (rules, with_gateway-IsLedger) depth 30

create_usage-IsLedger : (u : DiscountCodeUsage) → Preserves IsLedger (create_usage u)
unfolding create_usage
create_usage-IsLedger u = record { run = λ db h. h }

count_usage-IsLedger : (id : ℕ) → Preserves IsLedger (count_usage id)
unfolding count_usage
count_usage-IsLedger id = record { run = λ db h. guarded-Preserves IsLedger no_row _ _ db h h }

empty_cart_of-IsLedger : (user_id : ℕ) → Preserves IsLedger (empty_cart_of user_id)
unfolding empty_cart_of
empty_cart_of-IsLedger user_id = record { run = λ db h. h }

order_writes-IsLedger : (d : Draft) (now : ℕ) → Preserves IsLedger (order_writes d now)
unfolding order_writes take_stock pay_from_wallet await_gateway use_code record_discount_code_usage
order_writes-IsLedger d now =
    search (rules, create_usage-IsLedger, count_usage-IsLedger, empty_cart_of-IsLedger) depth 50

place_order-IsLedger : (d : Draft) (now : ℕ) → Preserves IsLedger (place_order d now)
unfolding place_order
place_order-IsLedger d now = search (rules, order_writes-IsLedger) depth 40

pub create_order-IsLedger :
    (g : Geography) (threshold : Fraction) (user_id : ℕ) (input : CreateOrderInput) (now : ℕ)
    → Preserves IsLedger (create_order g threshold user_id input now)
unfolding create_order check_items check_item check_payment_method own_address active_company
create_order-IsLedger g threshold user_id input now =
    search
      (
        rules, order_discount-IsLedger, shipping_distance-IsLedger, plan_payment-IsLedger,
        place_order-IsLedger,
      )
      depth 60
