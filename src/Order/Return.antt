-- ===== src/Order/Return.antt =====
-- src/services/order/order-return.service.ts, and src/utils/mediaOwnership.ts.
use Prim.Native.String.{String}
use e_commerce_nodejs.Base.{
  ℕ, Bool, true, false, not, ◌&&◌, ◌||◌, Option, none, some, List, [], ◌∷◌, any, filter, includes,
  length, is_none, truthy, given, ◌==◌,
}
use e_commerce_nodejs.Store.{
  Media, Order, OrderItem, OrderReturn, OrderStatus, ReturnStatus, WalletTransactionType,
  NotificationType, bad_request, not_found, conflict, M, pure, throw_if, or_throw, gets, when,
  when_some, for_each, transaction, ◌>>=◌, ◌>>◌, no_row, find_order, find_return, update_order,
  update_return, update_wallet, create_return, create_history, create_wallet_transaction,
  notify_user,
}
use e_commerce_nodejs.Wallet.{increment, get_or_create_wallet}
use e_commerce_nodejs.Order.Status.{is_delivered, is_return_requested, distinct}
use e_commerce_nodejs.Order.Cancellation.{restock_item}

-- `{ id: { in: mediaIds }, uploadedById: userId }`
abbrev pub is_owned : List ℕ → ℕ → Media → Bool
is_owned media_ids user_id m = elim m.uploaded_by_id [
  | none ↦ false
  | some owner ↦ includes m.id media_ids && owner == user_id
]

-- `assertMediaOwnedByUser`
unfoldable pub assert_media_owned_by_user : List ℕ → ℕ → M (Unit {0})
assert_media_owned_by_user [] user_id = pure tt
assert_media_owned_by_user (m ∷ ms) user_id = do
  owned ← gets (λ db. filter (is_owned (m ∷ ms) user_id) db.media)
  throw_if (not (length owned == length (distinct (m ∷ ms)))) (bad_request "attachments")

abbrev pub has_item : ℕ → Order → Bool
has_item id order = any (λ (i : OrderItem). i.id == id) order.items

-- `orderItemId && !order.items.some(...)`
abbrev pub names_foreign_item : Option ℕ → Order → Bool
names_foreign_item none order = false
names_foreign_item (some id) order = not (has_item id order)

-- `requestReturn`
unfoldable pub request_return : ℕ → ℕ → Option ℕ → String → List ℕ → M OrderReturn
request_return user_id order_id order_item_id reason image_media_ids = do
  order ← or_throw (← gets (find_order order_id)) (not_found "order")
  throw_if (not (order.user_id == user_id)) (not_found "order")
  throw_if (not (is_delivered order.status)) (conflict "order is not delivered")
  throw_if (names_foreign_item order_item_id order) (bad_request "item is not in the order")
  assert_media_owned_by_user image_media_ids user_id
  transaction (do
    created ← create_return (λ id. record {
      id = id;
      order_id = order_id;
      order_item_id = order_item_id;
      reason = reason;
      status = ReturnStatus.pending;
      refund_amount = none;
      image_media_ids = image_media_ids;
      admin_note = none;
      reviewed_at = none;
    })
    update_order order_id (λ o. record o { status = OrderStatus.return_requested })
    create_history
        (record { order_id = order_id; status = OrderStatus.return_requested; note = some reason })
    pure created)

abbrev pub is_received : ReturnStatus → Bool
is_received ReturnStatus.received = true
is_received _ = false

abbrev pub is_refunded : ReturnStatus → Bool
is_refunded ReturnStatus.refunded = true
is_refunded _ = false

abbrev pub is_rejected : ReturnStatus → Bool
is_rejected ReturnStatus.rejected = true
is_rejected _ = false

-- `itemsToRestock`
abbrev pub items_to_restock : OrderReturn → Order → List OrderItem
items_to_restock r order = elim r.order_item_id [
  | none ↦ order.items
  | some id ↦ filter (λ (i : OrderItem). i.id == id) order.items
]

-- A status of the order and its row of history.
unfoldable pub set_order_status : ℕ → OrderStatus → String → M (Unit {0})
set_order_status order_id status text = do
  update_order order_id (λ o. record o { status = status })
  create_history (record { order_id = order_id; status = status; note = some text })

-- The refund of a return, into the wallet of the customer.
unfoldable pub refund_return : OrderReturn → Order → ℕ → M (Unit {0})
refund_return r order refund_amount = do
  w ← get_or_create_wallet order.user_id
  update_wallet w.id (increment refund_amount)
  create_wallet_transaction (record {
    wallet_id = w.id;
    type = WalletTransactionType.refund;
    amount = refund_amount;
    order_id = some r.order_id;
  })

-- The REFUNDED branch: an amount of 0 is refused like a missing one.
unfoldable pub refund_branch : OrderReturn → Order → Option ℕ → M (Unit {0})
refund_branch r order refund_amount = do
  throw_if (not (truthy refund_amount)) (bad_request "refundAmount is required")
  when_some refund_amount (refund_return r order)
  when (is_none r.order_item_id) (set_order_status r.order_id OrderStatus.returned "refunded")

-- The database transaction of `updateReturnAdmin`.
unfoldable pub return_writes :
    OrderReturn → Order → ReturnStatus → Option ℕ → Option String → ℕ → M OrderReturn
return_writes r order status refund_amount admin_note now = do
  when (is_received status) (for_each (items_to_restock r order) restock_item)
  when (is_refunded status) (refund_branch r order refund_amount)
  when (is_rejected status && is_return_requested order.status)
      (set_order_status r.order_id OrderStatus.delivered "return rejected")
  update_return r.id (λ q. record q {
    status = status;
    refund_amount = given refund_amount q.refund_amount;
    admin_note = given admin_note q.admin_note;
    reviewed_at = some now;
  })
  or_throw (← gets (find_return r.id)) no_row

-- `updateReturnAdmin`
unfoldable pub update_return_admin : ℕ → ReturnStatus → Option ℕ → Option String → ℕ → M OrderReturn
update_return_admin return_id status refund_amount admin_note now = do
  r ← or_throw (← gets (find_return return_id)) (not_found "return")
  order ← or_throw (← gets (find_order r.order_id)) no_row
  throw_if (is_received status && (is_received r.status || is_refunded r.status))
      (conflict "return was received")
  throw_if (is_refunded status && is_refunded r.status) (conflict "return was refunded")
  updated ← transaction (return_writes r order status refund_amount admin_note now)
  when (is_refunded status || is_rejected status) (notify_user order.user_id NotificationType.order)
  pure updated
