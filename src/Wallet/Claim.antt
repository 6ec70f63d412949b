-- ===== src/Wallet/Claim.antt =====
-- The compare-and-swap of a transaction that is being verified.
use e_commerce_nodejs.Base.{
  ℕ, ◌≡◌, refl, ap, ◌∙◌, Bool, true, false, Bool-cases, inl, inr, List, [], ◌∷◌, ◌==◌,
  if◌then◌else◌,
}
use e_commerce_nodejs.Store.{
  Db, Transaction, PaymentStatus, ◌>>=◌, update_rows, count_rows, update_transactions, throw_if, ok,
  err, ApiError, conflict,
}
use e_commerce_nodejs.Wallet.{is_pending, claim_transaction}

-- How many PENDING transactions have this id.
abbrev pub pending_count : ℕ → Db → ℕ
pending_count id db =
    count_rows (λ t. if t.id == id then is_pending t.status else false) db.transactions

abbrev failing : Transaction → Transaction
failing t = record t { status = PaymentStatus.failed }

count_rows-claimed :
    (id : ℕ) (ts : List Transaction)
    → count_rows
        (λ t. if t.id == id then is_pending t.status else false)
        (update_rows (λ t. if t.id == id then is_pending t.status else false) failing ts)
      ≡ 0
count_rows-claimed id [] = refl
count_rows-claimed id (t ∷ ts) = elim (Bool-cases (t.id == id)) [
  | inr other ↦ rw (other, other) (count_rows-claimed id ts)
  | inl same ↦ elim (Bool-cases (is_pending t.status)) [
    | inl pending ↦ rw (same, pending, same) (count_rows-claimed id ts)
    | inr settled ↦ rw (same, settled, same, settled) (count_rows-claimed id ts)
  ]
]

throw_if-outcome :
    (b : Bool) (e : ApiError) (db : Db) → throw_if b e db ≡ (if b then err e else ok tt, db)
unfolding throw_if
throw_if-outcome true e db = refl
throw_if-outcome false e db = refl

-- A claim is decided by the PENDING transactions with the id alone: it is refused where there is
-- none, and returns where there is one, however many calls came before.
pub claim_transaction-decided :
    (id : ℕ) (db : Db)
    → (claim_transaction id db).0 ≡ (
        if pending_count id db == 0
        then err (conflict "transaction is being verified or was verified")
        else ok tt)
unfolding claim_transaction update_transactions ◌>>=◌
claim_transaction-decided id db = ap (λ r. r.0) (throw_if-outcome (pending_count id db == 0) _ _)

claim_transaction-pending_count :
    (id : ℕ) (db : Db) → pending_count id (claim_transaction id db).1 ≡ 0
unfolding claim_transaction update_transactions ◌>>=◌
claim_transaction-pending_count id db =
    ap (λ r. pending_count id r.1) (throw_if-outcome (pending_count id db == 0) _ _)
    ∙ count_rows-claimed id db.transactions

-- Of two claims of a transaction the second is refused with a conflict, whatever the first one found.
pub claim_transaction-exclusive :
    (id : ℕ) (db : Db)
    → (claim_transaction id (claim_transaction id db).1).0
      ≡ err (conflict "transaction is being verified or was verified")
claim_transaction-exclusive id db =
    rw
      (
        claim_transaction-decided id (claim_transaction id db).1,
        claim_transaction-pending_count id db,
      )
      refl
