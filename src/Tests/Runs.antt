-- ===== src/Tests/Runs.antt =====
-- The services run on the small shop and return.
use e_commerce_nodejs.Base.{◌≡◌, refl, Option, none, some}
use e_commerce_nodejs.Base.Int.{pos, ◌+ℤ◌, ◌-ℤ◌, ◌*ℤ◌, floor_div}
use e_commerce_nodejs.Pricing.Fraction.{round}
use e_commerce_nodejs.Pricing.Engine.{
  discounted, apply_product_discount, calculate_final_price, build_variant_modifiers,
  calculate_variant_price,
}
use e_commerce_nodejs.Pricing.Effective.{compute_product_effective_price}
use e_commerce_nodejs.Store.{
  Result, ok, err, conflict, ◌>>=◌, for_each, all_of, transaction, update_variant, update_variants,
  update_product, update_wallet, update_order, update_transactions, create_wallet_transaction,
  create_transaction, create_cancellation, create_history, create_order_row, notify_user,
  notify_admins, PaymentMethod,
}
use e_commerce_nodejs.Catalog.{variant_price, prices_of, refresh, recompute_product_aggregates}
use e_commerce_nodejs.Catalog.Stock.{stock_at}
use e_commerce_nodejs.Cart.{
  of_user, get_cart, summarize, summary_of, lines_of, line_of, effective_price,
  compute_variant_original_price, CartSummary,
}
use e_commerce_nodejs.Discount.{
  evaluate_discount_code, find_active_code_or_throw, assert_user_eligibility, evaluation,
  calculate_discount_amount, DiscountEvaluationResult,
}
use e_commerce_nodejs.Wallet.{
  claim_transaction, get_or_create_wallet, existing_or_new, create_empty_wallet,
}
use e_commerce_nodejs.Payment.{get_payment_gateway_by_slug}
use e_commerce_nodejs.Order.Cancellation.{
  restock_item, refund_wallet, refund_wallet_payment, record_gateway_refund, refund_payments,
  cancellation_writes, refresh_products, perform_cancellation,
}
use e_commerce_nodejs.Order.Create.{
  order_items, discount_shares, take_stock, pay_from_wallet, await_gateway, use_code, empty_cart_of,
  order_writes, place_order, with_gateway, plan_payment, PaymentPlan,
}
use e_commerce_nodejs.Tests.{shop, bought}
use e_commerce_nodejs.Tests.Witnesses.{draft}

abbrev outcome : {A B : Type 0} → (A → B) → Result A → Option B
outcome f (ok a) = some (f a)
outcome f (err e) = none

-- The cancellation gives back two shirts, and the wallet gets its money back.
perform_cancellation_runs :
    let after = perform_cancellation bought "late" 40 shop in
    (outcome (λ o. o.id) after.0 ≡ some 1) × (stock_at 7 after.1.variants ≡ 6)
unfolding perform_cancellation cancellation_writes refresh_products restock_item refund_payments
    refund_wallet_payment refund_wallet record_gateway_refund ◌>>=◌ for_each all_of transaction
    update_variant update_wallet update_order create_wallet_transaction create_transaction
    create_cancellation create_history recompute_product_aggregates refresh prices_of variant_price
    calculate_variant_price calculate_final_price build_variant_modifiers apply_product_discount
    discounted round update_product ◌+ℤ◌ ◌-ℤ◌ ◌*ℤ◌ floor_div
perform_cancellation_runs = (refl, refl)

-- An order of two shirts leaves two.
place_order_runs :
    let after = place_order draft 50 shop in
    (outcome (λ o. o.id) after.0 ≡ some 2) × (stock_at 7 after.1.variants ≡ 2)
unfolding place_order order_writes order_items discount_shares take_stock pay_from_wallet
    await_gateway use_code empty_cart_of ◌>>=◌ for_each all_of transaction update_variants
    create_order_row create_history notify_user notify_admins recompute_product_aggregates refresh
    prices_of variant_price calculate_variant_price calculate_final_price build_variant_modifiers
    apply_product_discount discounted round update_product ◌+ℤ◌ ◌-ℤ◌ ◌*ℤ◌ floor_div
place_order_runs = (refl, refl)

-- One shirt for 220 with 10 percent off.
get_cart_runs :
    outcome (λ (s : CartSummary). s.total) (get_cart (of_user 5) shop).0 ≡ some (pos 198)
unfolding get_cart summarize summary_of lines_of line_of effective_price
    compute_variant_original_price ◌>>=◌ calculate_variant_price calculate_final_price
    build_variant_modifiers apply_product_discount discounted round compute_product_effective_price
    ◌+ℤ◌ ◌-ℤ◌ ◌*ℤ◌ floor_div
get_cart_runs = refl

-- Half of 198 is more than the cap of 60.
evaluate_discount_code_runs :
    outcome
      (λ (e : DiscountEvaluationResult). e.payable_total)
      (evaluate_discount_code "WELCOME" (of_user 5) 60 shop).0
    ≡ some (pos 138)
unfolding evaluate_discount_code find_active_code_or_throw assert_user_eligibility evaluation
    calculate_discount_amount lines_of line_of effective_price compute_variant_original_price ◌>>=◌
    calculate_variant_price calculate_final_price build_variant_modifiers apply_product_discount
    discounted round compute_product_effective_price ◌+ℤ◌ ◌-ℤ◌ ◌*ℤ◌ floor_div
evaluate_discount_code_runs = refl

-- The wallet pays its 104, the gateway the rest of 300.
plan_payment_runs :
    outcome
      (λ (p : PaymentPlan). p.gateway_portion)
      (plan_payment 5 PaymentMethod.mixed (pos 300) (some "zarinpal") shop).0
    ≡ some (pos 196)
unfolding plan_payment with_gateway get_or_create_wallet existing_or_new create_empty_wallet
    get_payment_gateway_by_slug ◌>>=◌ ◌+ℤ◌ ◌-ℤ◌
plan_payment_runs = refl

-- A charge is claimed once.
claim_transaction_runs :
    let once = claim_transaction 1 shop in
    (once.0 ≡ ok tt)
    × ((claim_transaction 1 once.1).0
        ≡ err (conflict "transaction is being verified or was verified"))
unfolding claim_transaction update_transactions ◌>>=◌
claim_transaction_runs = (refl, refl)
