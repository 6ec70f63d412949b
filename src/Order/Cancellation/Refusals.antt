-- ===== src/Order/Cancellation/Refusals.antt =====
-- Who cannot cancel, and what: a refused cancellation writes nothing.
use Prim.Native.String.{String}
use e_commerce_nodejs.Base.{ℕ, ◌≡◌, refl, false, Bool-cases, inl, inr, some, ◌==◌, ==→eq, ◌⊎◌}
use e_commerce_nodejs.Store.{Db, Order, OrderStatus, ApiError, err, not_found, find_order, ◌>>=◌}
use e_commerce_nodejs.Order.Status.{is_cancellable}
use e_commerce_nodejs.Order.Cancellation.{refusal, cancel_order, check_cancellable}

-- The states of an order that has left the shop or is over.
pub data PastProcessing : OrderStatus → Type 0 where
  shipped : PastProcessing OrderStatus.shipped
  delivered : PastProcessing OrderStatus.delivered
  return_requested : PastProcessing OrderStatus.return_requested
  returned : PastProcessing OrderStatus.returned
  cancelled : PastProcessing OrderStatus.cancelled
  refunded : PastProcessing OrderStatus.refunded
  failed : PastProcessing OrderStatus.failed

past-is_cancellable : (status : OrderStatus) → PastProcessing status → is_cancellable status ≡ false
past-is_cancellable _ shipped = refl
past-is_cancellable _ delivered = refl
past-is_cancellable _ return_requested = refl
past-is_cancellable _ returned = refl
past-is_cancellable _ cancelled = refl
past-is_cancellable _ refunded = refl
past-is_cancellable _ failed = refl

-- An order of another customer, or one that is in any other state than PENDING_PAYMENT or PROCESSING,
-- cannot be cancelled by the customer: the call throws and leaves the database as
-- it was.
pub cancel_order-refused :
    (user_id order_id : ℕ) (reason : String) (now : ℕ) (order : Order) (db : Db)
    → find_order order_id db ≡ some order
    → (¬ (order.user_id ≡ user_id)) ⊎ PastProcessing order.status
    → (e : ApiError) × (cancel_order user_id order_id reason now db ≡ (err e, db))
unfolding cancel_order check_cancellable ◌>>=◌
cancel_order-refused user_id order_id reason now order db found h =
    elim (Bool-cases (order.user_id == user_id)) [
      | inr other ↦ (not_found "order", rw (found, other) refl)
      | inl own ↦ elim h [
        | inl foreign ↦ absurd (foreign (==→eq order.user_id user_id own))
        | inr past ↦ (refusal order, rw (found, own, past-is_cancellable order.status past) refl)
      ]
    ]
