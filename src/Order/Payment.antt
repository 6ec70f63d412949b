-- ===== src/Order/Payment.antt =====
-- src/services/order/order-payment.service.ts.
use Prim.Native.String.{String}
use e_commerce_nodejs.Base.{ℕ, not, ◌&&◌, Option, none, some, find_by, ◌==◌, non_empty}
use e_commerce_nodejs.Store.{
  Db, Order, OrderStatus, Transaction, PaymentStatus, PaymentGateway, NotificationType, bad_request,
  not_found, conflict, internal, M, pure, throw, throw_if, or_throw, gets, transaction, ◌>>=◌, ◌>>◌,
  no_row, find_order, find_gateway, update_transaction, update_order, create_history, notify_user,
}
use e_commerce_nodejs.Payment.{
  GatewayRegistry, ProviderParams, get_gateway, get_payment_gateway_by_slug,
}
use e_commerce_nodejs.Wallet.{claim_transaction, is_pending}
use e_commerce_nodejs.Order.Status.{is_pending_payment, is_order_payment, belongs_to}

-- `getOwnedOrder`
unfoldable pub get_owned_order : ℕ → ℕ → M Order
get_owned_order user_id order_id = do
  order ← or_throw (← gets (find_order order_id)) (not_found "order")
  throw_if (not (order.user_id == user_id)) (not_found "order")
  pure order

-- The newest payment of the order that is PENDING.
abbrev pub find_pending_payment : ℕ → Db → Option Transaction
find_pending_payment order_id db =
    find_by (λ t. belongs_to order_id t.order_id && is_order_payment t.type && is_pending t.status)
      db.transactions

-- The gateway that the customer names, or else the gateway of the payment; an empty slug is `none`.
unfoldable pub choose_gateway : Option String → Option ℕ → M PaymentGateway
choose_gateway (some slug) id = get_payment_gateway_by_slug slug
choose_gateway none none = throw (bad_request "a gateway is required")
choose_gateway none (some id) = do
  gateway ← gets (find_gateway id)
  or_throw gateway (bad_request "gateway of the transaction is not valid")

-- `initiateOrderPayment`: the address to send the customer to.
unfoldable pub initiate_order_payment : GatewayRegistry → ℕ → ℕ → Option String → M String
initiate_order_payment registry user_id order_id gateway_slug = do
  order ← get_owned_order user_id order_id
  throw_if (not (is_pending_payment order.status)) (conflict "order needs no payment")
  payment ← or_throw (← gets (find_pending_payment order_id)) (bad_request "no pending payment")
  gateway_record ← choose_gateway (non_empty gateway_slug) payment.gateway_id
  get_gateway registry gateway_record.slug
  result ←
      or_throw (registry.initiate_payment gateway_record.slug order.id payment.amount)
        (internal "gateway")
  update_transaction payment.id
      (λ t. record t { gateway_id = some gateway_record.id; ref_id = some result.gateway_ref_id })
  pure result.redirect_url

-- What a payment that the gateway has confirmed writes, in one database transaction.
unfoldable pub settle_order_payment : Order → Transaction → String → ℕ → M Order
settle_order_payment order payment ref_id now = transaction (do
  update_transaction payment.id
      (λ t. record t { status = PaymentStatus.success; ref_id = some ref_id })
  update_order order.id (λ o. record o { status = OrderStatus.processing; paid_at = some now })
  updated ← or_throw (← gets (find_order order.id)) no_row
  create_history (record {
    order_id = order.id;
    status = OrderStatus.processing;
    note = some "payment confirmed";
  })
  pure updated)

-- `verifyOrderPayment`
unfoldable pub verify_order_payment : GatewayRegistry → ℕ → ℕ → ProviderParams → ℕ → M Order
verify_order_payment registry user_id order_id provider_params now = do
  order ← get_owned_order user_id order_id
  payment ← or_throw (← gets (find_pending_payment order_id)) (bad_request "no pending payment")
  gateway_id ← or_throw payment.gateway_id (bad_request "transaction has no gateway")
  gateway_record ← or_throw (← gets (find_gateway gateway_id)) (not_found "payment gateway")
  claim_transaction payment.id
  get_gateway registry gateway_record.slug
  result ←
      or_throw (registry.verify_payment gateway_record.slug order.id payment.amount provider_params)
        (internal "gateway")
  throw_if (not result.success) (bad_request "payment failed")
  updated ← settle_order_payment order payment result.ref_id now
  notify_user order.user_id NotificationType.order
  pure updated
