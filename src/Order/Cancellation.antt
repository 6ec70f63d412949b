-- ===== src/Order/Cancellation.antt =====
-- src/services/order/order-cancellation.service.ts and src/jobs/expire-stale-orders.job.ts.
pub mod Stock
pub mod Once
pub mod Success
pub mod Refusals
pub mod Laws
use Prim.Native.String.{String}
use e_commerce_nodejs.Base.{
  ℕ, ◌+◌, ◌-◌, ◌*◌, Bool, true, false, not, ◌&&◌, ◌||◌, Option, none, some, List, [], ◌∷◌, filter,
  find_by, is_some, ltb, ◌==◌, if◌then◌else◌,
}
use e_commerce_nodejs.Store.{
  Db, Order, OrderItem, OrderStatus, Variant, WalletTransaction, WalletTransactionType, Wallet,
  Transaction, TransactionType, PaymentStatus, NotificationType, ApiError, not_found, conflict, M,
  pure, throw, throw_if, or_throw, gets, when, when_some, for_each, all_of, attempt, transaction,
  ◌>>=◌, ◌>>◌, no_row, find_order, find_wallet, update_variant, update_wallet, update_order,
  create_wallet_transaction, create_transaction, create_cancellation, create_history, notify_user,
}
use e_commerce_nodejs.Catalog.Stock.{add_stock}
use e_commerce_nodejs.Catalog.{recompute_product_aggregates}
use e_commerce_nodejs.Wallet.{increment, is_success}
use e_commerce_nodejs.Order.Status.{
  is_cancellable, is_pending_payment, is_cancelled, is_order_payment, is_purchase, belongs_to,
  products_of, variant_ids,
}

unfoldable pub restock_item : OrderItem → M (Unit {0})
restock_item item = update_variant item.variant_id (add_stock item.quantity)

-- The refund row of a wallet payment, and the balance.
unfoldable pub refund_wallet : ℕ → WalletTransaction → Wallet → M (Unit {0})
refund_wallet order_id payment w = do
  update_wallet w.id (increment payment.amount)
  create_wallet_transaction (record {
    wallet_id = w.id;
    type = WalletTransactionType.refund;
    amount = payment.amount;
    order_id = some order_id;
  })

unfoldable pub refund_wallet_payment : ℕ → WalletTransaction → M (Unit {0})
refund_wallet_payment order_id payment = do
  w ← gets (find_wallet payment.wallet_id)
  when_some w (refund_wallet order_id payment)

-- A gateway payment is not paid back here: the obligation is recorded.
unfoldable pub record_gateway_refund : Order → Transaction → M (Unit {0})
record_gateway_refund order payment = do
  create_transaction (λ id. record {
    id = id;
    order_id = some order.id;
    gateway_id = payment.gateway_id;
    user_id = order.user_id;
    type = TransactionType.refund;
    amount = payment.amount;
    status = PaymentStatus.pending;
    ref_id = none;
  })
  pure tt

abbrev pub find_purchase : ℕ → Db → Option WalletTransaction
find_purchase order_id db =
    find_by (λ t. belongs_to order_id t.order_id && is_purchase t.type) db.wallet_transactions

abbrev pub find_paid : ℕ → Db → Option Transaction
find_paid order_id db =
    find_by (λ t. belongs_to order_id t.order_id && is_order_payment t.type && is_success t.status)
      db.transactions

unfoldable pub refund_payments : Order → M (Unit {0})
refund_payments order = do
  wallet_payment ← gets (find_purchase order.id)
  when_some wallet_payment (refund_wallet_payment order.id)
  gateway_payment ← gets (find_paid order.id)
  when_some gateway_payment (record_gateway_refund order)

-- The database transaction of `performCancellation`.
unfoldable pub cancellation_writes : Order → String → ℕ → M Order
cancellation_writes order reason now = do
  for_each order.items restock_item
  when (is_some order.paid_at) (refund_payments order)
  create_cancellation (record { order_id = order.id; reason = reason; reviewed_at = now })
  update_order order.id (λ o. record o { status = OrderStatus.cancelled })
  create_history
      (record { order_id = order.id; status = OrderStatus.cancelled; note = some reason })
  or_throw (← gets (find_order order.id)) no_row

-- The aggregates of the products of the items.
unfoldable pub refresh_products : List OrderItem → M (Unit {0})
refresh_products items = do
  product_ids ← gets (products_of (variant_ids items))
  all_of product_ids recompute_product_aggregates

-- `performCancellation`
unfoldable pub perform_cancellation : Order → String → ℕ → M Order
perform_cancellation order reason now = do
  updated ← transaction (cancellation_writes order reason now)
  refresh_products order.items
  pure updated

abbrev is_closed : OrderStatus → Bool
is_closed OrderStatus.cancelled = true
is_closed OrderStatus.returned = true
is_closed _ = false

-- The two refusals of an order that cannot be cancelled any more.
abbrev pub refusal : Order → ApiError
refusal order =
    if is_closed order.status
    then conflict "order was cancelled or returned"
    else conflict "order was shipped: request a return"

unfoldable pub check_cancellable : Order → M (Unit {0})
check_cancellable order = throw_if (not (is_cancellable order.status)) (refusal order)

-- `cancelOrderAdmin`
unfoldable pub cancel_order_admin : ℕ → String → ℕ → M Order
cancel_order_admin order_id reason now = do
  order ← or_throw (← gets (find_order order_id)) (not_found "order")
  check_cancellable order
  updated ← perform_cancellation order reason now
  notify_user order.user_id NotificationType.order
  pure updated

-- `cancelOrder`
unfoldable pub cancel_order : ℕ → ℕ → String → ℕ → M Order
cancel_order user_id order_id reason now = do
  order ← or_throw (← gets (find_order order_id)) (not_found "order")
  throw_if (not (order.user_id == user_id)) (not_found "order")
  check_cancellable order
  updated ← perform_cancellation order reason now
  notify_user user_id NotificationType.order
  pure updated

-- `expireStaleOrder`
unfoldable pub expire_stale_order : ℕ → ℕ → M Order
expire_stale_order order_id now = do
  order ← or_throw (← gets (find_order order_id)) (not_found "order")
  throw_if (not (is_pending_payment order.status)) (conflict "order does not wait for a payment")
  updated ← perform_cancellation order "not paid in time" now
  notify_user order.user_id NotificationType.order
  pure updated

-- `createdAt: { lt: threshold }`, for `threshold = now - minutes`.
abbrev pub is_stale : (expiry_minutes now : ℕ) → Order → Bool
is_stale expiry_minutes now order =
    is_pending_payment order.status && ltb (order.created_at + expiry_minutes * 60000) now

-- `runExpireStaleOrdersJob`
unfoldable pub run_expire_stale_orders_job : (expiry_minutes now : ℕ) → M (Unit {0})
run_expire_stale_orders_job expiry_minutes now = do
  stale ← gets (λ db. filter (is_stale expiry_minutes now) db.orders)
  for_each stale (λ order. attempt (expire_stale_order order.id now))
