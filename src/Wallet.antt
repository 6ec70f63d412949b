-- ===== src/Wallet.antt =====
-- The wallet services: src/services/wallet/wallet.service.ts and wallet-withdrawal.service.ts, and the
-- adjustment of src/services/user/user-admin.service.ts.
pub mod Ledger
pub mod Claim
use Prim.Native.String.{String}
use e_commerce_nodejs.Base.{
  ℕ, suc, ◌+◌, Bool, true, false, not, ◌||◌, Option, none, some, List, [], ◌∷◌, given, ◌==◌,
  if◌then◌else◌,
}
use e_commerce_nodejs.Base.Int.{ℤ, pos, ◌+ℤ◌, ◌-ℤ◌, ltb_ℤ, pos_part, neg_part}
use e_commerce_nodejs.Store.{
  Db, Wallet, WalletTransaction, WalletTransactionType, Transaction, TransactionType, PaymentStatus,
  WalletWithdrawal, WithdrawalStatus, NotificationType, ApiError, bad_request, not_found, conflict,
  internal, prisma, M, pure, throw_if, or_throw, gets, when, transaction, ◌>>=◌, ◌>>◌,
  find_wallet_of_user, find_transaction, find_gateway, find_withdrawal, create_wallet,
  create_wallet_transaction, create_transaction, create_withdrawal, update_wallet,
  update_transaction, update_transactions, update_withdrawal, notify_user,
}
use e_commerce_nodejs.Payment.{
  GatewayRegistry, ProviderParams, get_gateway, get_payment_gateway_by_slug,
}

abbrev pub is_success : PaymentStatus → Bool
is_success PaymentStatus.success = true
is_success _ = false

abbrev pub is_pending : PaymentStatus → Bool
is_pending PaymentStatus.pending = true
is_pending _ = false

abbrev pub is_wallet_charge : TransactionType → Bool
is_wallet_charge TransactionType.wallet_charge = true
is_wallet_charge _ = false

-- `balance: { increment: amount }` and `balance: { decrement: amount }`
abbrev pub increment : ℕ → Wallet → Wallet
increment amount w = record w { balance = w.balance +ℤ pos amount }

abbrev pub decrement : ℕ → Wallet → Wallet
decrement amount w = record w { balance = w.balance -ℤ pos amount }

unfoldable pub create_empty_wallet : ℕ → M Wallet
create_empty_wallet user_id =
    create_wallet (λ id. record { id = id; user_id = user_id; balance = pos 0 })

unfoldable pub existing_or_new : ℕ → Option Wallet → M Wallet
existing_or_new user_id (some w) = pure w
existing_or_new user_id none = create_empty_wallet user_id

-- `getOrCreateWallet`, and the `upsert` of a wallet that updates nothing.
unfoldable pub get_or_create_wallet : ℕ → M Wallet
get_or_create_wallet user_id = do
  existing ← gets (find_wallet_of_user user_id)
  existing_or_new user_id existing

-- `initiateWalletCharge`: the transaction's id and the address to send the customer to.
unfoldable pub initiate_wallet_charge : GatewayRegistry → ℕ → ℕ → String → M (ℕ × String)
initiate_wallet_charge registry user_id amount gateway_slug = do
  gateway_record ← get_payment_gateway_by_slug gateway_slug
  get_gateway registry gateway_record.slug
  charge ← create_transaction (λ id. record {
    id = id;
    order_id = none;
    gateway_id = some gateway_record.id;
    user_id = user_id;
    type = TransactionType.wallet_charge;
    amount = amount;
    status = PaymentStatus.pending;
    ref_id = none;
  })
  result ←
      or_throw (registry.initiate_payment gateway_record.slug charge.id amount) (internal "gateway")
  update_transaction charge.id (λ t. record t { ref_id = some result.gateway_ref_id })
  pure (charge.id, result.redirect_url)

-- The claim of `verifyWalletCharge` and `verifyOrderPayment`: a compare-and-swap from PENDING to
-- FAILED.
unfoldable pub claim_transaction : ℕ → M (Unit {0})
claim_transaction id = do
  count ←
      update_transactions (λ t. if t.id == id then is_pending t.status else false)
        (λ t. record t { status = PaymentStatus.failed })
  throw_if (count == 0) (conflict "transaction is being verified or was verified")

-- What a charge that the gateway has confirmed writes, in one database transaction.
unfoldable pub credit_charge : Wallet → Transaction → String → M (Unit {0})
credit_charge w charge ref_id = transaction (do
  update_transaction charge.id
      (λ t. record t { status = PaymentStatus.success; ref_id = some ref_id })
  update_wallet w.id (increment charge.amount)
  create_wallet_transaction (record {
    wallet_id = w.id;
    type = WalletTransactionType.deposit;
    amount = charge.amount;
    order_id = none;
  }))

pub record ChargeVerified : Type 0 where
  pub already_processed : Bool
  pub balance : ℤ

-- `verifyWalletCharge` on a transaction that is not SUCCESS yet.
unfoldable pub settle_charge : GatewayRegistry → ℕ → Transaction → ProviderParams → M ChargeVerified
settle_charge registry user_id charge provider_params = do
  gateway_id ← or_throw charge.gateway_id (bad_request "transaction has no gateway")
  gateway_record ← or_throw (← gets (find_gateway gateway_id)) (not_found "payment gateway")
  claim_transaction charge.id
  get_gateway registry gateway_record.slug
  result ←
      or_throw (registry.verify_payment gateway_record.slug charge.id charge.amount provider_params)
        (internal "gateway")
  throw_if (not result.success) (bad_request "payment failed")
  w ← get_or_create_wallet user_id
  credit_charge w charge result.ref_id
  notify_user user_id NotificationType.wallet
  pure (record { already_processed = false; balance = w.balance +ℤ pos charge.amount })

unfoldable pub already_settled : ℕ → M ChargeVerified
already_settled user_id = do
  w ← get_or_create_wallet user_id
  pure (record { already_processed = true; balance = w.balance })

-- `verifyWalletCharge`
unfoldable pub verify_wallet_charge : GatewayRegistry → ℕ → ℕ → ProviderParams → M ChargeVerified
verify_wallet_charge registry user_id transaction_id provider_params = do
  charge ← or_throw (← gets (find_transaction transaction_id)) (not_found "transaction")
  throw_if (not (charge.user_id == user_id) || not (is_wallet_charge charge.type))
      (not_found "transaction")
  if is_success charge.status
      then already_settled user_id
      else settle_charge registry user_id charge provider_params

abbrev pub covers : ℕ → Wallet → Bool
covers amount w = not (ltb_ℤ w.balance (pos amount))

abbrev covered : ℕ → Option Wallet → Bool
covered amount none = false
covered amount (some w) = covers amount w

-- `requestWithdrawal`; the bank details are stored as given and decide nothing.
unfoldable pub request_withdrawal : ℕ → ℕ → M WalletWithdrawal
request_withdrawal user_id amount = do
  w ← gets (find_wallet_of_user user_id)
  throw_if (not (covered amount w)) (bad_request "balance is too low")
  create_withdrawal (λ id. record {
    id = id;
    user_id = user_id;
    amount = amount;
    status = WithdrawalStatus.pending;
    admin_note = none;
    tracking_code = none;
    reviewed_at = none;
  })

abbrev reviewed :
    WithdrawalStatus → Option String → Option String → ℕ → WalletWithdrawal → WalletWithdrawal
reviewed status admin_note tracking_code now r = record r {
  status = status;
  admin_note = given admin_note r.admin_note;
  tracking_code = given tracking_code r.tracking_code;
  reviewed_at = some now;
}

abbrev pub is_undecided : WithdrawalStatus → Bool
is_undecided WithdrawalStatus.pending = true
is_undecided _ = false

-- The APPROVED branch of `reviewWithdrawalAdmin`.
unfoldable pub approve_withdrawal :
    WalletWithdrawal → Option String → Option String → ℕ → M (Unit {0})
approve_withdrawal r admin_note tracking_code now = do
  w ← or_throw (← gets (find_wallet_of_user r.user_id)) (bad_request "balance is too low")
  throw_if (not (covers r.amount w)) (bad_request "balance is too low")
  transaction (do
    update_wallet w.id (decrement r.amount)
    create_wallet_transaction (record {
      wallet_id = w.id;
      type = WalletTransactionType.withdraw;
      amount = r.amount;
      order_id = none;
    })
    update_withdrawal r.id (reviewed WithdrawalStatus.approved admin_note tracking_code now))
  notify_user r.user_id NotificationType.wallet

-- The REJECTED branch of `reviewWithdrawalAdmin`.
unfoldable pub reject_withdrawal :
    WalletWithdrawal → Option String → Option String → ℕ → M (Unit {0})
reject_withdrawal r admin_note tracking_code now = do
  update_withdrawal r.id (reviewed WithdrawalStatus.rejected admin_note tracking_code now)
  notify_user r.user_id NotificationType.wallet

-- `reviewWithdrawalAdmin`; `approve` is `status === "APPROVED"`.
unfoldable pub review_withdrawal_admin :
    ℕ → Bool → Option String → Option String → ℕ → M WalletWithdrawal
review_withdrawal_admin withdrawal_id approve admin_note tracking_code now = do
  r ← or_throw (← gets (find_withdrawal withdrawal_id)) (not_found "withdrawal")
  throw_if (not (is_undecided r.status)) (conflict "withdrawal was reviewed")
  if approve
      then approve_withdrawal r admin_note tracking_code now
      else reject_withdrawal r admin_note tracking_code now
  or_throw (← gets (find_withdrawal withdrawal_id)) (prisma "P2025")

-- `adjustUserWallet`: the balance moves by the signed amount, the row holds its absolute value.
unfoldable pub adjust_user_wallet : ℕ → ℤ → M ℤ
adjust_user_wallet user_id amount = do
  w ← get_or_create_wallet user_id
  update_wallet w.id (λ v. record v { balance = v.balance +ℤ amount })
  create_wallet_transaction (record {
    wallet_id = w.id;
    type = WalletTransactionType.admin_adjust;
    amount = pos_part amount + neg_part amount;
    order_id = none;
  })
  pure (w.balance +ℤ amount)
