-- ===== src/Order/Cancellation/Success.antt =====
-- When a cancellation is carried out.
use Prim.Native.String.{String}
use e_commerce_nodejs.Base.{
  ℕ, ◌≡◌, refl, sym, eq→==, Bool, true, false, not, ◌||◌, or_later, Bool-cases, inl, inr, is_some,
  Option, none, some, List, [], ◌∷◌, All, All-map, any, find_by, ◌==◌,
}
use e_commerce_nodejs.Store.{
  Db, Order, OrderItem, OrderCancellation, OrderStatus, OrderStatusHistory, ApiError, Variant,
  Wallet, WalletTransaction, Transaction, M, update_rows, no_row, repeated, Succeeds,
  guarded-Succeeds, Completes, Completes-bind, Completes-for_each, Completes-transaction,
  Completes-when, Completes-gets, when_some, gets, transaction, update_variant, update_wallet,
  update_order, create_wallet_transaction, create_transaction, create_cancellation, create_history,
  find_wallet, find_order, or_throw, ◌>>=◌,
}
use e_commerce_nodejs.Catalog.Stock.{add_stock}
use e_commerce_nodejs.Order.Cancellation.{
  restock_item, refund_wallet, refund_wallet_payment, record_gateway_refund, refund_payments,
  find_purchase, find_paid, cancellation_writes,
}

abbrev HasVariant : Db → OrderItem → Type 0
HasVariant db i = any (λ v. v.id == i.variant_id) db.variants ≡ true

abbrev HasOrder : ℕ → Db → Type 0
HasOrder id db = any (λ o. o.id == id) db.orders ≡ true

abbrev NotCancelled : ℕ → Db → Type 0
NotCancelled id db = not (any (λ d. d.order_id == id) db.cancellations) ≡ true

-- The variants of the items are there, the order is, and it has no cancellation.
abbrev pub CanCancel : ℕ → List OrderItem → Db → Type 0
CanCancel order_id items db =
    All (HasVariant db) items × HasOrder order_id db × NotCancelled order_id db

-- What is in a list stays in it where the rest only gains.
any-cons : (a b c : Bool) → (a || b) ≡ true → (b ≡ true → c ≡ true) → (a || c) ≡ true
any-cons true b c h f = refl
any-cons false b c h f = f h

any-add_stock :
    (id k quantity : ℕ) (vs : List Variant)
    → any (λ v. v.id == id) vs ≡ true
    → any (λ v. v.id == id) (update_rows (λ v. v.id == k) (add_stock quantity) vs) ≡ true
any-add_stock id k quantity [] h = h
any-add_stock id k quantity (v ∷ vs) h = elim (Bool-cases (v.id == k)) [
  | inl same ↦ rw same (any-cons (v.id == id) _ _ h (any-add_stock id k quantity vs))
  | inr other ↦ rw other (any-cons (v.id == id) _ _ h (any-add_stock id k quantity vs))
]

restock_item-CanCancel :
    (order_id : ℕ) (i : OrderItem) (is : List OrderItem)
    → Completes (CanCancel order_id (i ∷ is)) (restock_item i) (λ _. CanCancel order_id is)
unfolding restock_item update_variant
restock_item-CanCancel order_id i is = record {
  run = λ db h.
      guarded-Succeeds (λ _. CanCancel order_id is) no_row _ _ db h.0.0
        (
          All-map is (λ j. any-add_stock j.variant_id i.variant_id i.quantity db.variants) h.0.1,
          h.1,
          h.2,
        );
}

-- What is left of the conditions once the items are back.
abbrev Ready : ℕ → Db → Type 0
Ready order_id db = HasOrder order_id db × NotCancelled order_id db

some_of_none : {A : Type 0} (a : A) → none ≡ some a → ⊥
some_of_none a e = absurd cc

same_wallet : (r w : Wallet) (rest : Bool) → some r ≡ some w → ((r.id == w.id) || rest) ≡ true
same_wallet r w rest e = rw (eq→== r.id w.id cc) refl

find_wallet-any :
    (id : ℕ) (w : Wallet) (rows : List Wallet)
    → find_by (λ (v : Wallet). v.id == id) rows ≡ some w
    → any (λ (v : Wallet). v.id == w.id) rows ≡ true
find_wallet-any id w [] e = absurd cc
find_wallet-any id w (r ∷ rs) e = elim (Bool-cases (r.id == id)) [
  | inl found ↦ same_wallet r w _ (rw found at e)
  | inr other ↦ or_later (r.id == w.id) _ (find_wallet-any id w rs (rw other at e))
]

module _ (order_id : ℕ) where
  refund_wallet-Ready :
      (payment : WalletTransaction) (w : Wallet)
      → Completes
          (λ db. (any (λ (v : Wallet). v.id == w.id) db.wallets ≡ true) × Ready order_id db)
          (refund_wallet order_id payment w)
          (λ _. Ready order_id)
  unfolding refund_wallet update_wallet create_wallet_transaction ◌>>=◌
  refund_wallet-Ready payment w = record { run = λ db h. rw h.0 h.1 }

  refund_found-Ready :
      (payment : WalletTransaction) (w : Option Wallet)
      → Completes
          (λ db. (w ≡ find_wallet payment.wallet_id db) × Ready order_id db)
          (when_some w (refund_wallet order_id payment))
          (λ _. Ready order_id)
  unfolding when_some
  refund_found-Ready payment none = record { run = λ db h. h.1 }
  refund_found-Ready payment (some w) = record {
    run = λ db h.
        (refund_wallet-Ready payment w).run db
          (find_wallet-any payment.wallet_id w db.wallets (sym h.0), h.1);
  }

  refund_wallet_payment-Ready :
      (payment : WalletTransaction)
      → Completes (Ready order_id) (refund_wallet_payment order_id payment) (λ _. Ready order_id)
  unfolding refund_wallet_payment
  refund_wallet_payment-Ready payment =
      Completes-bind _ _ (Completes-gets (find_wallet payment.wallet_id))
        (λ w. refund_found-Ready payment w)

  record_gateway_refund-Ready :
      (order : Order) (payment : Transaction)
      → Completes (Ready order_id) (record_gateway_refund order payment) (λ _. Ready order_id)
  unfolding record_gateway_refund create_transaction ◌>>=◌
  record_gateway_refund-Ready order payment = record { run = λ db h. h }

  when_some-Ready :
      {A : Type 0} (P : Db → Type 0) (o : Option A) (f : A → M (Unit {0}))
      → ((db : Db) → P db → Ready order_id db)
      → ((a : A) → Completes (Ready order_id) (f a) (λ _. Ready order_id))
      → Completes P (when_some o f) (λ _. Ready order_id)
  unfolding when_some
  when_some-Ready P none f r pf = record { run = r }
  when_some-Ready P (some a) f r pf = record { run = λ db h. (pf a).run db (r db h) }

refund_payments-Ready :
    (order : Order) → Completes (Ready order.id) (refund_payments order) (λ _. Ready order.id)
unfolding refund_payments
refund_payments-Ready order = Completes-bind _ _ (Completes-gets (find_purchase order.id)) (λ p.
    Completes-bind _ _
      (when_some-Ready order.id _ p (refund_wallet_payment order.id) (λ db h. h.1)
        (refund_wallet_payment-Ready order.id))
      (λ _. Completes-bind _ _ (Completes-gets (find_paid order.id)) (λ q.
        when_some-Ready order.id _ q (record_gateway_refund order) (λ db h. h.1)
          (record_gateway_refund-Ready order.id order))))

create_cancellation-HasOrder :
    (c : OrderCancellation)
    → Completes (Ready c.order_id) (create_cancellation c) (λ _. HasOrder c.order_id)
unfolding create_cancellation
create_cancellation-HasOrder c = record {
  run = λ db h. guarded-Succeeds (λ _. HasOrder c.order_id) repeated _ _ db h.1 h.0;
}

any-cancelled :
    (id k : ℕ) (rows : List Order)
    → any (λ (o : Order). o.id == id) rows ≡ true
    → any
        (λ (o : Order). o.id == id)
        (update_rows
          (λ (o : Order). o.id == k)
          (λ o. record o { status = OrderStatus.cancelled })
          rows)
      ≡ true
any-cancelled id k [] h = h
any-cancelled id k (o ∷ os) h = elim (Bool-cases (o.id == k)) [
  | inl same ↦ rw same (any-cons (o.id == id) _ _ h (any-cancelled id k os))
  | inr other ↦ rw other (any-cons (o.id == id) _ _ h (any-cancelled id k os))
]

any-found :
    (id : ℕ) (rows : List Order)
    → any (λ (o : Order). o.id == id) rows ≡ true
    → is_some (find_by (λ (o : Order). o.id == id) rows) ≡ true
any-found id [] h = h
any-found id (o ∷ os) h = elim (Bool-cases (o.id == id)) [
  | inl found ↦ rw found refl
  | inr other ↦ rw other (any-found id os (rw other at h))
]

cancel_row-HasOrder :
    (id : ℕ)
    → Completes
        (HasOrder id)
        (update_order id (λ o. record o { status = OrderStatus.cancelled }))
        (λ _. HasOrder id)
unfolding update_order
cancel_row-HasOrder id = record {
  run =
      λ db h. guarded-Succeeds (λ _. HasOrder id) no_row _ _ db h (any-cancelled id id db.orders h);
}

create_history-HasOrder :
    (id : ℕ) (row : OrderStatusHistory)
    → Completes (HasOrder id) (create_history row) (λ _. HasOrder id)
unfolding create_history
create_history-HasOrder id row = record { run = λ db h. h }

or_throw-Completes :
    (o : Option Order) (e : ApiError)
    → Completes {S = Db} (λ _. is_some o ≡ true) (or_throw o e) (λ _ _. Unit {0})
unfolding or_throw
or_throw-Completes none e = record { run = λ db h. absurd cc }
or_throw-Completes (some a) e = record { run = λ db h. tt }

read_order-Completes :
    (id : ℕ) → Completes (HasOrder id) (gets (find_order id)) (λ o _. is_some o ≡ true)
unfolding gets
read_order-Completes id = record { run = λ db h. any-found id db.orders h }

ready :
    (id : ℕ) {A : Type 0} {m : M A} {Q : A → Db → Type 0}
    → Completes (Ready id) m Q
    → Completes (CanCancel id []) m Q
ready id c = record { run = λ db h. c.run db (h.1, h.2) }

cancellation_writes-Completes :
    (order : Order) (reason : String) (now : ℕ)
    → Completes
        (CanCancel order.id order.items)
        (cancellation_writes order reason now)
        (λ _ _. Unit {0})
unfolding cancellation_writes
cancellation_writes-Completes order reason now =
    Completes-bind _ _
      (Completes-for_each (CanCancel order.id) restock_item (restock_item-CanCancel order.id)
        order.items)
      (λ _. ready order.id (
        Completes-bind _ _
          (Completes-when (is_some order.paid_at) (refund_payments order)
            (refund_payments-Ready order))
          (λ _. Completes-bind _ _ (create_cancellation-HasOrder _) (λ _.
            Completes-bind _ _ (cancel_row-HasOrder order.id) (λ _.
              Completes-bind _ _ (create_history-HasOrder order.id _) (λ _.
                Completes-bind _ _ (read_order-Completes order.id)
                  (λ o. or_throw-Completes o _)))))))

-- If the variants of its items and the order itself are there, and it has no cancellation yet, the
-- database transaction of a cancellation is carried out, whatever was paid and from where.
pub cancellation_writes-Succeeds :
    (order : Order) (reason : String) (now : ℕ) (db : Db)
    → CanCancel order.id order.items db
    → Succeeds (λ _ _. Unit {0}) (transaction (cancellation_writes order reason now) db)
cancellation_writes-Succeeds order reason now db h =
    (Completes-transaction _ (cancellation_writes-Completes order reason now)).run db h
