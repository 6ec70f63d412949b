-- ===== src/Order/Status.antt =====
-- Tests on the columns of an order that the order services share.
use e_commerce_nodejs.Base.{
  ℕ, Bool, true, false, Option, none, some, List, [], ◌∷◌, map, includes, filter, ◌==◌,
  if◌then◌else◌,
}
use e_commerce_nodejs.Store.{
  Db, OrderStatus, OrderItem, TransactionType, WalletTransactionType, Variant,
}

abbrev pub is_pending_payment : OrderStatus → Bool
is_pending_payment OrderStatus.pending_payment = true
is_pending_payment _ = false

abbrev pub is_delivered : OrderStatus → Bool
is_delivered OrderStatus.delivered = true
is_delivered _ = false

abbrev pub is_cancelled : OrderStatus → Bool
is_cancelled OrderStatus.cancelled = true
is_cancelled _ = false

abbrev pub is_return_requested : OrderStatus → Bool
is_return_requested OrderStatus.return_requested = true
is_return_requested _ = false

-- `CANCELLABLE_STATUSES.includes(status)`
abbrev pub is_cancellable : OrderStatus → Bool
is_cancellable OrderStatus.pending_payment = true
is_cancellable OrderStatus.processing = true
is_cancellable _ = false

abbrev pub belongs_to : ℕ → Option ℕ → Bool
belongs_to order_id none = false
belongs_to order_id (some id) = id == order_id

abbrev pub is_order_payment : TransactionType → Bool
is_order_payment TransactionType.order_payment = true
is_order_payment _ = false

abbrev pub is_purchase : WalletTransactionType → Bool
is_purchase WalletTransactionType.purchase = true
is_purchase _ = false

-- `Array.from(new Set(ids))`: each id once.
abbrev pub distinct : List ℕ → List ℕ
distinct [] = []
distinct (k ∷ ks) = let rest = distinct ks in if includes k rest then rest else k ∷ rest

-- The products of the variants with these ids.
abbrev pub products_of : List ℕ → Db → List ℕ
products_of variant_ids db =
    distinct
      (map (λ (v : Variant). v.product_id) (filter (λ v. includes v.id variant_ids) db.variants))

abbrev pub variant_ids : List OrderItem → List ℕ
variant_ids items = map (λ (i : OrderItem). i.variant_id) items
