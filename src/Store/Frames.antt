-- ===== src/Store/Frames.antt =====
-- A statement keeps every predicate that does not look at the table it writes.
use e_commerce_nodejs.Base.{ℕ, Bool, not, List, any, ◌==◌}
use e_commerce_nodejs.Store.Rows.{
  Db, Variant, Product, Wallet, WalletTransaction, Transaction, WalletWithdrawal, Order,
  OrderStatusHistory, OrderCancellation, OrderReturn, Notification, NotificationType,
}
use e_commerce_nodejs.Store.Statements.{
  guarded-Preserves, no_row, repeated, update_rows, update_variant, update_product, update_wallet,
  update_transaction, update_transactions, update_order, update_return, update_withdrawal,
  create_wallet, create_wallet_transaction, create_transaction, create_withdrawal, create_order_row,
  create_return, create_history, create_cancellation, notify_user, update_variants, notify_admins,
}
use e_commerce_nodejs.Store.Invariants.{Preserves}

module _ {P : Db → Type 0} where
  pub update_variant-Preserves :
      (id : ℕ) (f : Variant → Variant)
      → ((db : Db) (rows : List Variant) → P db → P (record db { variants = rows }))
      → Preserves P (update_variant id f)
  unfolding update_variant
  update_variant-Preserves id f frame = record {
    run = λ db h.
        guarded-Preserves P no_row (any (λ v. v.id == id) db.variants)
          (record db { variants = update_rows (λ v. v.id == id) f db.variants }) db (frame db _ h)
          h;
  }

  pub update_product-Preserves :
      (id : ℕ) (f : Product → Product)
      → ((db : Db) (rows : List Product) → P db → P (record db { products = rows }))
      → Preserves P (update_product id f)
  unfolding update_product
  update_product-Preserves id f frame = record {
    run = λ db h.
        guarded-Preserves P no_row (any (λ p. p.id == id) db.products)
          (record db { products = update_rows (λ p. p.id == id) f db.products }) db (frame db _ h)
          h;
  }

  pub update_wallet-Preserves :
      (id : ℕ) (f : Wallet → Wallet)
      → ((db : Db) (rows : List Wallet) → P db → P (record db { wallets = rows }))
      → Preserves P (update_wallet id f)
  unfolding update_wallet
  update_wallet-Preserves id f frame = record {
    run = λ db h.
        guarded-Preserves P no_row (any (λ w. w.id == id) db.wallets)
          (record db { wallets = update_rows (λ w. w.id == id) f db.wallets }) db (frame db _ h) h;
  }

  pub update_transaction-Preserves :
      (id : ℕ) (f : Transaction → Transaction)
      → ((db : Db) (rows : List Transaction) → P db → P (record db { transactions = rows }))
      → Preserves P (update_transaction id f)
  unfolding update_transaction
  update_transaction-Preserves id f frame = record {
    run = λ db h.
        guarded-Preserves P no_row (any (λ t. t.id == id) db.transactions)
          (record db { transactions = update_rows (λ t. t.id == id) f db.transactions }) db
          (frame db _ h) h;
  }

  pub update_order-Preserves :
      (id : ℕ) (f : Order → Order)
      → ((db : Db) (rows : List Order) → P db → P (record db { orders = rows }))
      → Preserves P (update_order id f)
  unfolding update_order
  update_order-Preserves id f frame = record {
    run = λ db h.
        guarded-Preserves P no_row (any (λ o. o.id == id) db.orders)
          (record db { orders = update_rows (λ o. o.id == id) f db.orders }) db (frame db _ h) h;
  }

  pub update_return-Preserves :
      (id : ℕ) (f : OrderReturn → OrderReturn)
      → ((db : Db) (rows : List OrderReturn) → P db → P (record db { returns = rows }))
      → Preserves P (update_return id f)
  unfolding update_return
  update_return-Preserves id f frame = record {
    run = λ db h.
        guarded-Preserves P no_row (any (λ r. r.id == id) db.returns)
          (record db { returns = update_rows (λ r. r.id == id) f db.returns }) db (frame db _ h) h;
  }

  pub update_withdrawal-Preserves :
      (id : ℕ) (f : WalletWithdrawal → WalletWithdrawal)
      → ((db : Db) (rows : List WalletWithdrawal) → P db → P (record db { withdrawals = rows }))
      → Preserves P (update_withdrawal id f)
  unfolding update_withdrawal
  update_withdrawal-Preserves id f frame = record {
    run = λ db h.
        guarded-Preserves P no_row (any (λ r. r.id == id) db.withdrawals)
          (record db { withdrawals = update_rows (λ r. r.id == id) f db.withdrawals }) db
          (frame db _ h) h;
  }

  pub update_transactions-Preserves :
      (p : Transaction → Bool) (f : Transaction → Transaction)
      → ((db : Db) (rows : List Transaction) → P db → P (record db { transactions = rows }))
      → Preserves P (update_transactions p f)
  unfolding update_transactions
  update_transactions-Preserves p f frame = record { run = λ db h. frame db _ h }

  pub create_wallet-Preserves :
      (make : ℕ → Wallet)
      → ((db : Db) (rows : List Wallet) (next : ℕ)
          → P db
          → P (record db { wallets = rows; wallet_seq = next }))
      → Preserves P (create_wallet make)
  unfolding create_wallet
  create_wallet-Preserves make frame = record { run = λ db h. frame db _ _ h }

  pub create_transaction-Preserves :
      (make : ℕ → Transaction)
      → ((db : Db) (rows : List Transaction) (next : ℕ)
          → P db
          → P (record db { transactions = rows; transaction_seq = next }))
      → Preserves P (create_transaction make)
  unfolding create_transaction
  create_transaction-Preserves make frame = record { run = λ db h. frame db _ _ h }

  pub create_withdrawal-Preserves :
      (make : ℕ → WalletWithdrawal)
      → ((db : Db) (rows : List WalletWithdrawal) (next : ℕ)
          → P db
          → P (record db { withdrawals = rows; withdrawal_seq = next }))
      → Preserves P (create_withdrawal make)
  unfolding create_withdrawal
  create_withdrawal-Preserves make frame = record { run = λ db h. frame db _ _ h }

  pub create_order_row-Preserves :
      (make : ℕ → ℕ → Order)
      → ((db : Db) (rows : List Order) (next next_item : ℕ)
          → P db
          → P (record db { orders = rows; order_seq = next; order_item_seq = next_item }))
      → Preserves P (create_order_row make)
  unfolding create_order_row
  create_order_row-Preserves make frame = record { run = λ db h. frame db _ _ _ h }

  pub update_variants-Preserves :
      (p : Variant → Bool) (f : Variant → Variant)
      → ((db : Db) (rows : List Variant) → P db → P (record db { variants = rows }))
      → Preserves P (update_variants p f)
  unfolding update_variants
  update_variants-Preserves p f frame = record { run = λ db h. frame db _ h }

  pub notify_admins-Preserves :
      (type : NotificationType)
      → ((db : Db) (rows : List NotificationType)
          → P db
          → P (record db { admin_notifications = rows }))
      → Preserves P (notify_admins type)
  unfolding notify_admins
  notify_admins-Preserves type frame = record { run = λ db h. frame db _ h }

  pub create_return-Preserves :
      (make : ℕ → OrderReturn)
      → ((db : Db) (rows : List OrderReturn) (next : ℕ)
          → P db
          → P (record db { returns = rows; return_seq = next }))
      → Preserves P (create_return make)
  unfolding create_return
  create_return-Preserves make frame = record { run = λ db h. frame db _ _ h }

  pub create_wallet_transaction-Preserves :
      (row : WalletTransaction)
      → ((db : Db) (rows : List WalletTransaction)
          → P db
          → P (record db { wallet_transactions = rows }))
      → Preserves P (create_wallet_transaction row)
  unfolding create_wallet_transaction
  create_wallet_transaction-Preserves row frame = record { run = λ db h. frame db _ h }

  pub create_history-Preserves :
      (row : OrderStatusHistory)
      → ((db : Db) (rows : List OrderStatusHistory)
          → P db
          → P (record db { status_history = rows }))
      → Preserves P (create_history row)
  unfolding create_history
  create_history-Preserves row frame = record { run = λ db h. frame db _ h }

  pub create_cancellation-Preserves :
      (c : OrderCancellation)
      → ((db : Db) (rows : List OrderCancellation) → P db → P (record db { cancellations = rows }))
      → Preserves P (create_cancellation c)
  unfolding create_cancellation
  create_cancellation-Preserves c frame = record {
    run = λ db h.
        guarded-Preserves P repeated (not (any (λ d. d.order_id == c.order_id) db.cancellations)) _
          db (frame db _ h) h;
  }

  pub notify_user-Preserves :
      (id : ℕ) (type : NotificationType)
      → ((db : Db) (rows : List Notification) → P db → P (record db { notifications = rows }))
      → Preserves P (notify_user id type)
  unfolding notify_user
  notify_user-Preserves id type frame = record { run = λ db h. frame db _ h }

pub ruleset frame_rules = (
  update_variant-Preserves, update_product-Preserves, update_wallet-Preserves,
  update_transaction-Preserves, update_order-Preserves, update_return-Preserves,
  update_withdrawal-Preserves, update_transactions-Preserves, create_wallet-Preserves,
  create_transaction-Preserves, create_withdrawal-Preserves, create_order_row-Preserves,
  create_return-Preserves, create_wallet_transaction-Preserves, create_history-Preserves,
  create_cancellation-Preserves, notify_user-Preserves, update_variants-Preserves,
  notify_admins-Preserves,
)
