-- ===== src/Tests/Witnesses.antt =====
-- The theorems at the values of the small shop.
use e_commerce_nodejs.Base.{
  ℕ, ◌+◌, ◌≡◌, refl, arith, min, true, none, some, OnSome, List, [], ◌∷◌, All, ◌⊎◌, inr,
}
use e_commerce_nodejs.Base.Int.{pos, ◌+ℤ◌, ◌≤ℤ◌}
use e_commerce_nodejs.Pricing.Fraction.{whole}
use e_commerce_nodejs.Pricing.Engine.{DiscountType, calculate_variant_price}
use e_commerce_nodejs.Pricing.Engine.Laws.{IsPriced, calculate_variant_price-IsPriced}
use e_commerce_nodejs.Pricing.Effective.{
  IsWithin, compute_product_effective_price, compute_product_effective_price-IsWithin,
}
use e_commerce_nodejs.Pricing.Allocation.{
  sum_ℤ, allocate_proportionally, sum-allocate_proportionally,
}
use e_commerce_nodejs.Store.{
  ApiError, conflict, err, Returns, Succeeds, transaction, Ensures, Preserves, PaymentMethod, ◌>>◌,
  Order, Db, OrderStatus,
}
use e_commerce_nodejs.Catalog.{pricing_input, recompute_product_aggregates}
use e_commerce_nodejs.Catalog.Stock.{units}
use e_commerce_nodejs.Cart.{of_user, CartLine, get_cart}
use e_commerce_nodejs.Cart.Items.{put_item, find_item, quantity_of}
use e_commerce_nodejs.Cart.Limits.{put_item-quantity}
use e_commerce_nodejs.Cart.Totals.{AddsUp, get_cart-AddsUp}
use e_commerce_nodejs.Discount.{find_active_code_or_throw, evaluate_discount_code}
use e_commerce_nodejs.Discount.Laws.{IsUsable, find_active_code_or_throw-IsUsable}
use e_commerce_nodejs.Payment.{GatewayRegistry}
use e_commerce_nodejs.Shipping.{Geography}
use e_commerce_nodejs.Wallet.{adjust_user_wallet, claim_transaction}
use e_commerce_nodejs.Wallet.Claim.{claim_transaction-exclusive}
use e_commerce_nodejs.Wallet.Ledger.{IsLedger}
use e_commerce_nodejs.Wallet.Ledger.Services.{adjust_user_wallet-IsLedger}
use e_commerce_nodejs.Order.Cancellation.{cancellation_writes, perform_cancellation, cancel_order}
use e_commerce_nodejs.Order.Cancellation.Stock.{Restocked, Untouched, perform_cancellation-restocks}
use e_commerce_nodejs.Order.Cancellation.Once.{perform_cancellation-once}
use e_commerce_nodejs.Order.Cancellation.Success.{cancellation_writes-Succeeds}
use e_commerce_nodejs.Order.Cancellation.Refusals.{shipped, cancel_order-refused}
use e_commerce_nodejs.Order.Create.{Draft, place_order, plan_payment}
use e_commerce_nodejs.Order.Create.Payment.{IsSplit, Solvent, due, plan_payment-IsSplit}
use e_commerce_nodejs.Order.Create.Stock.{wanted, place_order-takes}
use e_commerce_nodejs.Services.{
  Shop, Call, verify_charge, cancel, cancel_by_admin, change_cart, serve, serve-IsLedger,
}
use e_commerce_nodejs.Tests.{shop, bought, small, shirt}
use e_commerce_nodejs.Discount.Evaluation.{IsEvaluated, evaluate_discount_code-IsEvaluated}
use e_commerce_nodejs.Catalog.Aggregates.Recompute.{
  HasSummary, recompute_product_aggregates-Summarises,
}

-- A gateway that confirms every payment.
abbrev confirming : GatewayRegistry
confirming = record {
  is_registered = λ name. true;
  initiate_payment =
      λ name id amount. some (record { redirect_url = "/pay"; gateway_ref_id = "a1" });
  verify_payment = λ name id amount params. some (record { success = true; ref_id = "a1" });
}

abbrev nowhere : Geography
nowhere = record {
  warehouse_lat = none;
  warehouse_lng = none;
  road_factor = none;
  haversine_distance_km = λ from to. whole (pos 0);
}

abbrev configured : Shop
configured = record { registry = confirming; geography = nowhere; threshold = whole (pos 1) }

-- The charge is verified twice, the order is cancelled twice, and the cart is changed.
abbrev day : List (ℕ × Call)
day =
    (20, verify_charge 5 1 [])
    ∷ (21, verify_charge 5 1 [])
    ∷ (30, cancel 5 1 "changed my mind")
    ∷ (31, cancel_by_admin 1 "again")
    ∷ (32, change_cart (of_user 5) 1 9)
    ∷ []

shop-IsLedger : IsLedger shop
shop-IsLedger = ((refl, tt), (omega arith, tt), (omega arith, (omega arith, tt)))

serve-IsLedger_example : IsLedger (serve configured day shop).1
serve-IsLedger_example = serve-IsLedger configured day shop shop-IsLedger

perform_cancellation-restocks_example :
    Returns (λ _. Restocked bought.items shop) (perform_cancellation bought "late" 40 shop)
    × (Untouched shop (perform_cancellation bought "late" 40 shop).1
        ⊎ Restocked bought.items shop (perform_cancellation bought "late" 40 shop).1)
perform_cancellation-restocks_example = perform_cancellation-restocks bought "late" 40 shop

abbrev two_shirts : CartLine
two_shirts = record {
  id = 1;
  variant_id = 7;
  product_id = 1;
  category_ids = 3 ∷ [];
  quantity = 2;
  unit_price = pos 198;
  original_price = pos 220;
  line_total = pos 396;
  is_available = true;
  available_stock = 4;
  weight = none;
}

abbrev pub draft : Draft
draft = record {
  user_id = 5;
  method = PaymentMethod.freight_collect;
  cart = record {
    id = some 1;
    item_count = 2;
    subtotal = pos 440;
    total_discount = pos 44;
    total = pos 396;
    items = two_shirts ∷ [];
  };
  shipping_cost = pos 0;
  discount = record { code_id = none; amount = pos 0; variant_ids = [] };
  total_amount = pos 396;
  plan = record { wallet = none; wallet_portion = pos 0; gateway_portion = pos 0; gateway = none };
}

place_order-takes_example :
    Returns
      (λ _ after. units 7 after.variants + wanted 7 (two_shirts ∷ []) ≡ units 7 shop.variants)
      (place_order draft 50 shop)
place_order-takes_example = place_order-takes 7 draft 50 shop

perform_cancellation-once_example :
    Ensures
      (λ _. Unit {0})
      (perform_cancellation bought "late" 40 >> perform_cancellation bought "again" 41)
      (λ _ _. ⊥)
perform_cancellation-once_example = perform_cancellation-once bought "late" "again" 40 41

cancellation_writes-Succeeds_example :
    Succeeds (λ _ _. Unit {0}) (transaction (cancellation_writes bought "late" 40) shop)
cancellation_writes-Succeeds_example =
    cancellation_writes-Succeeds bought "late" 40 shop ((refl, tt), refl, refl)

evaluate_discount_code-IsEvaluated_example :
    Ensures
      (λ db. db ≡ shop)
      (evaluate_discount_code "WELCOME" (of_user 5) 60)
      (λ e _. IsEvaluated shop "WELCOME" (of_user 5) 60 e)
evaluate_discount_code-IsEvaluated_example =
    evaluate_discount_code-IsEvaluated shop "WELCOME" (of_user 5) 60

find_active_code_or_throw-IsUsable_example :
    Ensures
      (λ db. db ≡ shop)
      (find_active_code_or_throw "WELCOME" 60)
      (λ d db. (db ≡ shop) × IsUsable shop "WELCOME" 60 d)
find_active_code_or_throw-IsUsable_example = find_active_code_or_throw-IsUsable "WELCOME" 60 shop

plan_payment-IsSplit_example :
    Ensures
      (Solvent 5)
      (plan_payment 5 PaymentMethod.mixed (pos 300) (some "zarinpal"))
      (IsSplit 5 (due PaymentMethod.mixed (pos 300)))
plan_payment-IsSplit_example =
    plan_payment-IsSplit 5 PaymentMethod.mixed (pos 300) (some "zarinpal") (omega arith)

claim_transaction-exclusive_example :
    (claim_transaction 1 (claim_transaction 1 shop).1).0
    ≡ err (conflict "transaction is being verified or was verified")
claim_transaction-exclusive_example = claim_transaction-exclusive 1 shop

positive_weights : pos 1 ≤ℤ sum_ℤ (pos 1 ∷ pos 1 ∷ pos 1 ∷ [])
unfolding ◌+ℤ◌
positive_weights = omega arith

sum-allocate_proportionally_example :
    sum_ℤ (allocate_proportionally 10 (pos 1 ∷ pos 1 ∷ pos 1 ∷ [])) ≡ pos 10
sum-allocate_proportionally_example =
    sum-allocate_proportionally 10 (pos 1 ∷ pos 1 ∷ pos 1 ∷ []) (omega arith) positive_weights

put_item-quantity_example :
    Succeeds
      (λ _ after.
        quantity_of (find_item 1 7 after) ≡ min (quantity_of (find_item 1 7 shop) + 9) small.stock)
      (put_item 1 small 9 shop)
put_item-quantity_example = put_item-quantity 1 small 9 shop

get_cart-AddsUp_example : Ensures (λ _. Unit {0}) (get_cart (of_user 5)) (λ s _. AddsUp s)
get_cart-AddsUp_example = get_cart-AddsUp (of_user 5)

not_negative : pos 0 ≤ℤ pos 220 +ℤ pos 0
unfolding ◌+ℤ◌
not_negative = omega arith

compute_product_effective_price-IsWithin_example : IsWithin (
    compute_product_effective_price
      (pos 220)
      (pos 0)
      (some DiscountType.percent)
      (some 10)
      none
      (some 90)
      60)
compute_product_effective_price-IsWithin_example =
    compute_product_effective_price-IsWithin (pos 220) (pos 0) (some DiscountType.percent) (some 10)
      none (some 90) 60 not_negative

calculate_variant_price-IsPriced_example :
    OnSome
      (IsPriced (some DiscountType.percent) (some 10))
      (calculate_variant_price (pricing_input shirt) none (pos 20) [])
calculate_variant_price-IsPriced_example =
    calculate_variant_price-IsPriced (pricing_input shirt) none (pos 20) []

recompute_product_aggregates-Summarises_example :
    Ensures
      (λ db. db ≡ shop)
      (recompute_product_aggregates 1)
      (λ _ after. All (HasSummary shirt shop.variants) after.products)
recompute_product_aggregates-Summarises_example =
    recompute_product_aggregates-Summarises 1 shirt shop refl

abbrev shipped_order : Order
shipped_order = record bought { status = OrderStatus.shipped }

abbrev shop_of_shipped : Db
shop_of_shipped = record shop { orders = shipped_order ∷ [] }

cancel_order-refused_example :
    (e : ApiError) × (cancel_order 5 1 "too late" 40 shop_of_shipped ≡ (err e, shop_of_shipped))
cancel_order-refused_example =
    cancel_order-refused 5 1 "too late" 40 shipped_order shop_of_shipped refl (inr shipped)

adjust_user_wallet-IsLedger_example : Preserves IsLedger (adjust_user_wallet 5 (pos 25))
adjust_user_wallet-IsLedger_example = adjust_user_wallet-IsLedger 5 (pos 25) (omega arith)
