-- ===== src/Wallet/Ledger/Services.antt =====
-- The wallet services keep the ledger, whether they return or throw.
use Prim.Native.String.{String}
use e_commerce_nodejs.Base.{ℕ, ◌+◌, Bool, Option, none, refl, arith}
use e_commerce_nodejs.Base.Int.{ℤ, pos, negsuc, pos_part, neg_part, ◌+ℤ◌, ◌≤ℤ◌, int_laws}
use e_commerce_nodejs.Store.{Wallet, Transaction, WalletWithdrawal, admin_adjust, Preserves}
use e_commerce_nodejs.Payment.{
  GatewayRegistry, ProviderParams, get_gateway, get_payment_gateway_by_slug,
}
use e_commerce_nodejs.Wallet.{
  initiate_wallet_charge, claim_transaction, credit_charge, settle_charge, already_settled,
  verify_wallet_charge, request_withdrawal, approve_withdrawal, reject_withdrawal,
  review_withdrawal_admin, adjust_user_wallet,
}
use e_commerce_nodejs.Wallet.Ledger.{
  IsLedger, Matches, matches_rules, move_funds-IsLedger, record_funds-IsLedger,
}
use e_commerce_nodejs.Wallet.Ledger.Frame.{ledger_rules}

ruleset rules = (ledger_rules, matches_rules, move_funds-IsLedger, record_funds-IsLedger)

pub claim_transaction-IsLedger : (id : ℕ) → Preserves IsLedger (claim_transaction id)
unfolding claim_transaction
claim_transaction-IsLedger id = search ledger_rules

pub get_gateway-IsLedger :
    (registry : GatewayRegistry) (name : String) → Preserves IsLedger (get_gateway registry name)
unfolding get_gateway
get_gateway-IsLedger registry name = search ledger_rules

pub get_payment_gateway_by_slug-IsLedger :
    (slug : String) → Preserves IsLedger (get_payment_gateway_by_slug slug)
unfolding get_payment_gateway_by_slug
get_payment_gateway_by_slug-IsLedger slug = search ledger_rules

credit_charge-IsLedger :
    (w : Wallet) (charge : Transaction) (ref_id : String)
    → Preserves IsLedger (credit_charge w charge ref_id)
unfolding credit_charge
credit_charge-IsLedger w charge ref_id = search rules

ruleset wallet_rules = (
  rules, claim_transaction-IsLedger, get_gateway-IsLedger, get_payment_gateway_by_slug-IsLedger,
  credit_charge-IsLedger,
)

pub initiate_wallet_charge-IsLedger :
    (registry : GatewayRegistry) (user_id amount : ℕ) (slug : String)
    → Preserves IsLedger (initiate_wallet_charge registry user_id amount slug)
unfolding initiate_wallet_charge
initiate_wallet_charge-IsLedger registry user_id amount slug = search wallet_rules depth 30

settle_charge-IsLedger :
    (registry : GatewayRegistry) (user_id : ℕ) (charge : Transaction) (params : ProviderParams)
    → Preserves IsLedger (settle_charge registry user_id charge params)
unfolding settle_charge
settle_charge-IsLedger registry user_id charge params = search wallet_rules depth 30

already_settled-IsLedger : (user_id : ℕ) → Preserves IsLedger (already_settled user_id)
unfolding already_settled
already_settled-IsLedger user_id = search wallet_rules depth 30

-- Whether it returns or throws, and whatever the gateway answers, verifying a charge keeps every
-- balance equal to the rows written for its wallet.
pub verify_wallet_charge-IsLedger :
    (registry : GatewayRegistry) (user_id transaction_id : ℕ) (params : ProviderParams)
    → Preserves IsLedger (verify_wallet_charge registry user_id transaction_id params)
unfolding verify_wallet_charge
verify_wallet_charge-IsLedger registry user_id transaction_id params =
    search (wallet_rules, settle_charge-IsLedger, already_settled-IsLedger) depth 30

pub request_withdrawal-IsLedger :
    (user_id amount : ℕ) → Preserves IsLedger (request_withdrawal user_id amount)
unfolding request_withdrawal
request_withdrawal-IsLedger user_id amount = search wallet_rules depth 30

approve_withdrawal-IsLedger :
    (r : WalletWithdrawal) (admin_note code : Option String) (now : ℕ)
    → Preserves IsLedger (approve_withdrawal r admin_note code now)
unfolding approve_withdrawal
approve_withdrawal-IsLedger r admin_note code now = search wallet_rules depth 30

reject_withdrawal-IsLedger :
    (r : WalletWithdrawal) (admin_note code : Option String) (now : ℕ)
    → Preserves IsLedger (reject_withdrawal r admin_note code now)
unfolding reject_withdrawal
reject_withdrawal-IsLedger r admin_note code now = search wallet_rules depth 30

pub review_withdrawal_admin-IsLedger :
    (id : ℕ) (approve : Bool) (admin_note code : Option String) (now : ℕ)
    → Preserves IsLedger (review_withdrawal_admin id approve admin_note code now)
unfolding review_withdrawal_admin
review_withdrawal_admin-IsLedger id approve admin_note code now =
    search (wallet_rules, approve_withdrawal-IsLedger, reject_withdrawal-IsLedger) depth 30

-- The row of an adjustment that is not negative is the change of the balance.
adjustment-Matches :
    (id : ℕ) (amount : ℤ)
    → pos 0 ≤ℤ amount
    → Matches
        (λ w. record w { balance = w.balance +ℤ amount })
        (record {
          wallet_id = id;
          type = admin_adjust;
          amount = pos_part amount + neg_part amount;
          order_id = none;
        })
adjustment-Matches id (pos n) h = record { at = λ w. (refl, omega int_laws) }
adjustment-Matches id (negsuc n) h = absurd (omega arith)

-- An adjustment by an amount that is not negative keeps every balance equal to its rows.
pub adjust_user_wallet-IsLedger :
    (user_id : ℕ) (amount : ℤ)
    → pos 0 ≤ℤ amount
    → Preserves IsLedger (adjust_user_wallet user_id amount)
unfolding adjust_user_wallet
adjust_user_wallet-IsLedger user_id amount h =
    search (rules, λ (id : ℕ). adjustment-Matches id amount h) depth 30
