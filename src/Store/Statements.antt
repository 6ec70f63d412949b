-- ===== src/Store/Statements.antt =====
-- The Prisma statements of the services: lookups are functions of the database, writes are calls.
-- `update` on a row that is not there throws P2025, `updateMany` counts the rows that it changed, and
-- `create` throws P2002 where a unique column would be repeated.
use e_commerce_nodejs.Base.{
  ℕ, suc, ◌+◌, length, Bool, true, false, not, Option, List, [], ◌∷◌, any, find_by, ◌==◌,
  if◌then◌else◌,
}
use e_commerce_nodejs.Store.Rows.{
  Db, Variant, Wallet, WalletTransaction, Transaction, WalletWithdrawal, Order, OrderStatusHistory,
  OrderCancellation, OrderReturn, Product, PaymentGateway, NotificationType,
}
use e_commerce_nodejs.Store.Monad.{ApiError, Act, M, ok, err, prisma}

-- The rows for which `p` holds are changed by `f`.
abbrev pub update_rows {ℓ} : {A : Type ℓ} → (A → Bool) → (A → A) → List A → List A
update_rows p f [] = []
update_rows p f (r ∷ rs) = (if p r then f r else r) ∷ update_rows p f rs

abbrev pub count_rows {ℓ} : {A : Type ℓ} → (A → Bool) → List A → ℕ
count_rows p [] = 0
count_rows p (r ∷ rs) = if p r then suc (count_rows p rs) else count_rows p rs

-- A write under a condition of the database.
abbrev pub guarded : {S : Type 0} → ApiError → Bool → S → Act S (Unit {0})
guarded e true db' db = (ok tt, db')
guarded e false db' db = (err e, db)

pub guarded-Preserves :
    {S : Type 0} (P : S → Type 0) (e : ApiError) (b : Bool) (db' db : S)
    → P db'
    → P db
    → P (guarded e b db' db).1
guarded-Preserves P e true db' db h' h = h'
guarded-Preserves P e false db' db h' h = h

-- `update` finds no row.
abbrev pub no_row : ApiError
no_row = prisma "P2025"

-- `create` repeats a unique column.
abbrev pub repeated : ApiError
repeated = prisma "P2002"

unfoldable pub update_variant : ℕ → (Variant → Variant) → M (Unit {0})
update_variant id f db =
    guarded no_row (any (λ v. v.id == id) db.variants)
      (record db { variants = update_rows (λ v. v.id == id) f db.variants }) db

-- `updateMany` on variants: the number of rows changed.
unfoldable pub update_variants : (Variant → Bool) → (Variant → Variant) → M ℕ
update_variants p f db =
    (ok (count_rows p db.variants), record db { variants = update_rows p f db.variants })

unfoldable pub update_product : ℕ → (Product → Product) → M (Unit {0})
update_product id f db =
    guarded no_row (any (λ p. p.id == id) db.products)
      (record db { products = update_rows (λ p. p.id == id) f db.products }) db

unfoldable pub update_wallet : ℕ → (Wallet → Wallet) → M (Unit {0})
update_wallet id f db =
    guarded no_row (any (λ w. w.id == id) db.wallets)
      (record db { wallets = update_rows (λ w. w.id == id) f db.wallets }) db

unfoldable pub update_transaction : ℕ → (Transaction → Transaction) → M (Unit {0})
update_transaction id f db =
    guarded no_row (any (λ t. t.id == id) db.transactions)
      (record db { transactions = update_rows (λ t. t.id == id) f db.transactions }) db

-- `updateMany` on transactions: the number of rows changed.
unfoldable pub update_transactions : (Transaction → Bool) → (Transaction → Transaction) → M ℕ
update_transactions p f db = (
  ok (count_rows p db.transactions),
  record db { transactions = update_rows p f db.transactions },
)

unfoldable pub update_order : ℕ → (Order → Order) → M (Unit {0})
update_order id f db =
    guarded no_row (any (λ o. o.id == id) db.orders)
      (record db { orders = update_rows (λ o. o.id == id) f db.orders }) db

unfoldable pub update_return : ℕ → (OrderReturn → OrderReturn) → M (Unit {0})
update_return id f db =
    guarded no_row (any (λ r. r.id == id) db.returns)
      (record db { returns = update_rows (λ r. r.id == id) f db.returns }) db

unfoldable pub update_withdrawal : ℕ → (WalletWithdrawal → WalletWithdrawal) → M (Unit {0})
update_withdrawal id f db =
    guarded no_row (any (λ r. r.id == id) db.withdrawals)
      (record db { withdrawals = update_rows (λ r. r.id == id) f db.withdrawals }) db

unfoldable pub create_wallet : (ℕ → Wallet) → M Wallet
create_wallet make db =
    let w = make db.wallet_seq in
    (ok w, record db { wallets = w ∷ db.wallets; wallet_seq = suc db.wallet_seq })

unfoldable pub create_wallet_transaction : WalletTransaction → M (Unit {0})
create_wallet_transaction t db =
    (ok tt, record db { wallet_transactions = t ∷ db.wallet_transactions })

unfoldable pub create_transaction : (ℕ → Transaction) → M Transaction
create_transaction make db =
    let t = make db.transaction_seq in
    (
      ok t,
      record db { transactions = t ∷ db.transactions; transaction_seq = suc db.transaction_seq },
    )

unfoldable pub create_withdrawal : (ℕ → WalletWithdrawal) → M WalletWithdrawal
create_withdrawal make db =
    let r = make db.withdrawal_seq in
    (ok r, record db { withdrawals = r ∷ db.withdrawals; withdrawal_seq = suc db.withdrawal_seq })

-- An order is written with its items, which take their ids from here on.
unfoldable pub create_order_row : (ℕ → ℕ → Order) → M Order
create_order_row make db =
    let o = make db.order_seq db.order_item_seq in
    (
      ok o,
      record db {
        orders = o ∷ db.orders;
        order_seq = suc db.order_seq;
        order_item_seq = db.order_item_seq + length o.items;
      },
    )

unfoldable pub create_return : (ℕ → OrderReturn) → M OrderReturn
create_return make db =
    let r = make db.return_seq in
    (ok r, record db { returns = r ∷ db.returns; return_seq = suc db.return_seq })

unfoldable pub create_history : OrderStatusHistory → M (Unit {0})
create_history h db = (ok tt, record db { status_history = h ∷ db.status_history })

-- `orderId` of a cancellation is unique.
unfoldable pub create_cancellation : OrderCancellation → M (Unit {0})
create_cancellation c db =
    guarded repeated (not (any (λ d. d.order_id == c.order_id) db.cancellations))
      (record db { cancellations = c ∷ db.cancellations }) db

-- `notifyUser(...).catch(() => undefined)`: the row of the message; a failure is dropped.
unfoldable pub notify_user : ℕ → NotificationType → M (Unit {0})
notify_user user_id type db = (
  ok tt,
  record db { notifications = record { user_id = user_id; type = type } ∷ db.notifications },
)

-- `createAdminNotification(...).catch(() => undefined)`
unfoldable pub notify_admins : NotificationType → M (Unit {0})
notify_admins type db = (ok tt, record db { admin_notifications = type ∷ db.admin_notifications })

-- `findUnique` and `findFirst`, on the tables that are looked up by id or by owner.
abbrev pub find_wallet : ℕ → Db → Option Wallet
find_wallet id db = find_by (λ w. w.id == id) db.wallets

abbrev pub find_wallet_of_user : ℕ → Db → Option Wallet
find_wallet_of_user user_id db = find_by (λ w. w.user_id == user_id) db.wallets

abbrev pub find_transaction : ℕ → Db → Option Transaction
find_transaction id db = find_by (λ t. t.id == id) db.transactions

abbrev pub find_gateway : ℕ → Db → Option PaymentGateway
find_gateway id db = find_by (λ g. g.id == id) db.payment_gateways

abbrev pub find_order : ℕ → Db → Option Order
find_order id db = find_by (λ o. o.id == id) db.orders

abbrev pub find_return : ℕ → Db → Option OrderReturn
find_return id db = find_by (λ r. r.id == id) db.returns

abbrev pub find_withdrawal : ℕ → Db → Option WalletWithdrawal
find_withdrawal id db = find_by (λ r. r.id == id) db.withdrawals

abbrev pub find_variant : ℕ → Db → Option Variant
find_variant id db = find_by (λ v. v.id == id) db.variants

abbrev pub find_product : ℕ → Db → Option Product
find_product id db = find_by (λ p. p.id == id) db.products
