-- ===== src/Order/Admin.antt =====
-- `updateOrderStatusAdmin` of src/services/order/order.service.ts.
use Prim.Native.String.{String}
use e_commerce_nodejs.Base.{
  ℕ, ◌+◌, not, ◌&&◌, Option, none, some, or_else, if◌then◌else◌, non_empty,
}
use e_commerce_nodejs.Store.{
  Order, OrderItem, OrderStatus, NotificationType, not_found, M, pure, or_throw, gets, when,
  for_each, transaction, ◌>>=◌, ◌>>◌, no_row, find_order, find_variant, update_order,
  update_product, create_history, notify_user,
}
use e_commerce_nodejs.Order.Status.{is_cancelled, is_delivered}
use e_commerce_nodejs.Order.Cancellation.{cancel_order_admin}

abbrev or_keep : Option (Option String) → Option String → Option String
or_keep none old = old
or_keep (some new) old = new

-- `totalSold: { increment: item.quantity }` on the product of the item's variant.
unfoldable pub count_sale : OrderItem → M (Unit {0})
count_sale item = do
  v ← or_throw (← gets (find_variant item.variant_id)) no_row
  update_product v.product_id (λ p. record p { total_sold = p.total_sold + item.quantity })

-- The input: a column that is not given stays as it is.
pub record StatusInput : Type 0 where
  pub status : OrderStatus
  pub note : Option String
  pub tracking_code : Option (Option String)
  pub package_number : Option (Option String)

-- The branch of every status but a new CANCELLED.
unfoldable pub write_status : Order → StatusInput → M Order
write_status order input = do
  updated ← transaction (do
    update_order order.id (λ o. record o {
      status = input.status;
      tracking_code = or_keep input.tracking_code o.tracking_code;
      package_number = or_keep input.package_number o.package_number;
    })
    updated ← or_throw (← gets (find_order order.id)) no_row
    when (not (is_delivered order.status) && is_delivered input.status)
        (for_each order.items count_sale)
    create_history (record { order_id = order.id; status = input.status; note = input.note })
    pure updated)
  notify_user order.user_id NotificationType.order
  pure updated

-- `updateOrderStatusAdmin`: a new CANCELLED takes the way of a cancellation.
unfoldable pub update_order_status_admin : ℕ → StatusInput → ℕ → M Order
update_order_status_admin order_id input now = do
  order ← or_throw (← gets (find_order order_id)) (not_found "order")
  if is_cancelled input.status && not (is_cancelled order.status)
      then cancel_order_admin order_id
          (or_else (non_empty input.note) "cancelled by an administrator") now
      else write_status order input
