-- ===== src/Wallet/Ledger.antt =====
-- The wallet ledger: the balance of every wallet is the sum of the rows written for it.
pub mod Frame
pub mod Services
use e_commerce_nodejs.Base.{
  ℕ, zero, suc, ◌+◌, ◌≤◌, ◌<◌, ◌≡◌, refl, Bool, true, false, Option, none, some, List, [], ◌∷◌,
  arith, All, All-map, any, Bool-cases, inl, inr, ◌==◌, if◌then◌else◌,
}
use e_commerce_nodejs.Base.Int.{
  ℤ, pos, negsuc, pos_part, neg_part, ◌+ℤ◌, ◌-ℤ◌, +ℤ_parts, -ℤ_parts, int_laws,
}
use e_commerce_nodejs.Store.{
  Db, Wallet, WalletTransaction, WalletTransactionType, deposit, withdraw, purchase, admin_adjust,
  M, ◌>>=◌, ◌>>◌, update_wallet, update_rows, guarded, create_wallet, create_wallet_transaction,
  Preserves, preserves_rules,
}
use e_commerce_nodejs.Wallet.{increment, decrement}

-- What a row adds to the balance of its wallet, and what it takes. The row of an adjustment is read
-- as a credit; no service writes a row for a withdrawal request.
abbrev pub credit_of : WalletTransaction → ℕ
credit_of t = elim t.type [
  | deposit ↦ t.amount
  | WalletTransactionType.refund ↦ t.amount
  | admin_adjust ↦ t.amount
  | _ ↦ 0
]

abbrev pub debit_of : WalletTransaction → ℕ
debit_of t = elim t.type [ withdraw ↦ t.amount | purchase ↦ t.amount | _ ↦ 0 ]

abbrev pub credits : ℕ → List WalletTransaction → ℕ
credits id [] = 0
credits id (t ∷ ts) = (if t.wallet_id == id then credit_of t else 0) + credits id ts

abbrev pub debits : ℕ → List WalletTransaction → ℕ
debits id [] = 0
debits id (t ∷ ts) = (if t.wallet_id == id then debit_of t else 0) + debits id ts

-- `balance = credits - debits`, without a subtraction.
abbrev pub IsSettled : List WalletTransaction → Wallet → Type 0
IsSettled ts w = pos_part w.balance + debits w.id ts ≡ neg_part w.balance + credits w.id ts

-- The rows agree, and the next wallet id is fresh.
abbrev pub IsLedger : Db → Type 0
IsLedger db =
    All (IsSettled db.wallet_transactions) db.wallets
    × All (λ w. w.id < db.wallet_seq) db.wallets
    × All (λ t. t.wallet_id < db.wallet_seq) db.wallet_transactions

-- A change of balance and its row, together.
pub record Matches (f : Wallet → Wallet) (t : WalletTransaction) : Type 0 where
  pub at :
      (w : Wallet)
      → ((f w).id ≡ w.id)
        × (pos_part (f w).balance + neg_part w.balance + debit_of t
            ≡ neg_part (f w).balance + pos_part w.balance + credit_of t)

update_rows-IsSettled :
    (f : Wallet → Wallet) (t : WalletTransaction) (ts : List WalletTransaction) (ws : List Wallet)
    → Matches f t
    → All (IsSettled ts) ws
    → All (IsSettled (t ∷ ts)) (update_rows (λ w. w.id == t.wallet_id) f ws)
update_rows-IsSettled f t ts [] m h = tt
update_rows-IsSettled f t ts (w ∷ ws) m h =
    (ground (arith, m.at w), update_rows-IsSettled f t ts ws m h.1)

update_rows-fresh :
    (f : Wallet → Wallet) (t : WalletTransaction) (n : ℕ) (ws : List Wallet)
    → Matches f t
    → All (λ w. w.id < n) ws
    → All (λ w. w.id < n) (update_rows (λ w. w.id == t.wallet_id) f ws)
update_rows-fresh f t n [] m h = tt
update_rows-fresh f t n (w ∷ ws) m h = (ground (arith, m.at w), update_rows-fresh f t n ws m h.1)

any-fresh :
    (id n : ℕ) (ws : List Wallet)
    → All (λ w. w.id < n) ws
    → any (λ w. w.id == id) ws ≡ true
    → id < n
any-fresh id n [] h e = cc
any-fresh id n (w ∷ ws) h e = ground (arith, any-fresh id n ws h.1)

module _ (id amount : ℕ) (order_id : Option ℕ) where
  abbrev row : WalletTransactionType → WalletTransaction
  row type = record { wallet_id = id; type = type; amount = amount; order_id = order_id }

  pub deposit-Matches : Matches (increment amount) (row deposit)
  deposit-Matches = record { at = λ w. (refl, omega int_laws) }

  pub refund-Matches : Matches (increment amount) (row WalletTransactionType.refund)
  refund-Matches = record { at = λ w. (refl, omega int_laws) }

  pub withdraw-Matches : Matches (decrement amount) (row withdraw)
  withdraw-Matches = record { at = λ w. (refl, omega int_laws) }

  pub purchase-Matches : Matches (decrement amount) (row purchase)
  purchase-Matches = record { at = λ w. (refl, omega int_laws) }

pub ruleset matches_rules = (deposit-Matches, refund-Matches, withdraw-Matches, purchase-Matches)

-- A balance update, the row that records it and what follows keep the ledger.
pub move_funds-IsLedger :
    {B : Type 0} (f : Wallet → Wallet) (t : WalletTransaction) (k : M B)
    → Matches f t
    → Preserves IsLedger k
    → Preserves IsLedger (update_wallet t.wallet_id f >> (create_wallet_transaction t >> k))
unfolding update_wallet create_wallet_transaction ◌>>=◌
move_funds-IsLedger f t k m pk = record {
  run = λ db h. elim (Bool-cases (any (λ w. w.id == t.wallet_id) db.wallets)) [
    | inl here ↦ rw here (
        pk.run _ (
          update_rows-IsSettled f t _ _ m h.0,
          update_rows-fresh f t _ _ m h.1,
          (any-fresh _ _ _ h.1 here, h.2),
        ))
    | inr missing ↦ rw missing h
  ];
}

pub record_funds-IsLedger :
    (f : Wallet → Wallet) (t : WalletTransaction)
    → Matches f t
    → Preserves IsLedger (update_wallet t.wallet_id f >> create_wallet_transaction t)
unfolding update_wallet create_wallet_transaction ◌>>=◌
record_funds-IsLedger f t m = record {
  run = λ db h. elim (Bool-cases (any (λ w. w.id == t.wallet_id) db.wallets)) [
    | inl here ↦ rw here (
      update_rows-IsSettled f t _ _ m h.0,
      update_rows-fresh f t _ _ m h.1,
      (any-fresh _ _ _ h.1 here, h.2),
    )
    | inr missing ↦ rw missing h
  ];
}

rows-unused :
    (id n : ℕ) (ts : List WalletTransaction)
    → All (λ t. t.wallet_id < n) ts
    → n ≤ id
    → (credits id ts ≡ 0) × (debits id ts ≡ 0)
rows-unused id n [] h le = (refl, refl)
rows-unused id n (t ∷ ts) h le = ground (arith, rows-unused id n ts h.1 le)

-- A new wallet is empty and has a fresh id.
pub create_wallet-IsLedger :
    (user_id : ℕ)
    → Preserves IsLedger
        (create_wallet (λ id. record { id = id; user_id = user_id; balance = pos 0 }))
unfolding create_wallet
create_wallet-IsLedger user_id = record {
  run = λ db h. (
    (omega (arith, rows-unused db.wallet_seq _ _ h.2 (omega arith)), h.0),
    (omega arith, All-map db.wallets (λ w lt. omega arith) h.1),
    All-map db.wallet_transactions (λ t lt. omega arith) h.2,
  );
}
