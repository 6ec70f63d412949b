-- ===== src/Wallet/Ledger/Frame.antt =====
-- The statements that touch no wallet and no wallet row keep the ledger; so does opening a wallet.
use e_commerce_nodejs.Base.{ℕ, Option, none, some}
use e_commerce_nodejs.Store.{Wallet, frame_rules, Preserves, Preserves-pure, preserves_rules}
use e_commerce_nodejs.Wallet.{create_empty_wallet, existing_or_new, get_or_create_wallet}
use e_commerce_nodejs.Wallet.Ledger.{IsLedger, create_wallet-IsLedger}

existing_or_new-IsLedger :
    (user_id : ℕ) (w : Option Wallet) → Preserves IsLedger (existing_or_new user_id w)
unfolding existing_or_new create_empty_wallet
existing_or_new-IsLedger user_id (some w) = Preserves-pure w
existing_or_new-IsLedger user_id none = create_wallet-IsLedger user_id

pub get_or_create_wallet-IsLedger :
    (user_id : ℕ) → Preserves IsLedger (get_or_create_wallet user_id)
unfolding get_or_create_wallet
get_or_create_wallet-IsLedger user_id = search (preserves_rules, existing_or_new-IsLedger)

pub ruleset ledger_rules = (preserves_rules, frame_rules, get_or_create_wallet-IsLedger)
