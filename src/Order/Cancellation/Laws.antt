-- ===== src/Order/Cancellation/Laws.antt =====
-- Cancelling keeps the wallet ledger.
use Prim.Native.String.{String}
use e_commerce_nodejs.Base.{ℕ}
use e_commerce_nodejs.Store.{Order, Preserves}
use e_commerce_nodejs.Catalog.Frame.{recompute_product_aggregates-Preserves}
use e_commerce_nodejs.Wallet.Ledger.{IsLedger, matches_rules, record_funds-IsLedger}
use e_commerce_nodejs.Wallet.Ledger.Frame.{ledger_rules}
use e_commerce_nodejs.Order.Cancellation.{
  restock_item, refund_wallet, refund_wallet_payment, record_gateway_refund, refund_payments,
  cancellation_writes, perform_cancellation, refresh_products, check_cancellable,
  cancel_order_admin, cancel_order, expire_stale_order, run_expire_stale_orders_job,
}

ruleset rules =
    (ledger_rules, matches_rules, record_funds-IsLedger, recompute_product_aggregates-Preserves)

refund_payments-IsLedger : (order : Order) → Preserves IsLedger (refund_payments order)
unfolding refund_payments refund_wallet_payment refund_wallet record_gateway_refund
refund_payments-IsLedger order = search rules depth 40

perform_cancellation-IsLedger :
    (order : Order) (reason : String) (now : ℕ)
    → Preserves IsLedger (perform_cancellation order reason now)
unfolding perform_cancellation cancellation_writes restock_item refresh_products
perform_cancellation-IsLedger order reason now = search (rules, refund_payments-IsLedger) depth 40

pub cancel_order_admin-IsLedger :
    (order_id : ℕ) (reason : String) (now : ℕ)
    → Preserves IsLedger (cancel_order_admin order_id reason now)
unfolding cancel_order_admin check_cancellable
cancel_order_admin-IsLedger order_id reason now =
    search (rules, perform_cancellation-IsLedger) depth 40

pub cancel_order-IsLedger :
    (user_id order_id : ℕ) (reason : String) (now : ℕ)
    → Preserves IsLedger (cancel_order user_id order_id reason now)
unfolding cancel_order check_cancellable
cancel_order-IsLedger user_id order_id reason now =
    search (rules, perform_cancellation-IsLedger) depth 40

pub expire_stale_order-IsLedger :
    (order_id now : ℕ) → Preserves IsLedger (expire_stale_order order_id now)
unfolding expire_stale_order
expire_stale_order-IsLedger order_id now = search (rules, perform_cancellation-IsLedger) depth 40

pub run_expire_stale_orders_job-IsLedger :
    (expiry_minutes now : ℕ) → Preserves IsLedger (run_expire_stale_orders_job expiry_minutes now)
unfolding run_expire_stale_orders_job
run_expire_stale_orders_job-IsLedger expiry_minutes now =
    search (rules, expire_stale_order-IsLedger) depth 40
