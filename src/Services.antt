-- ===== src/Services.antt =====
-- The calls that customers, administrators and the job make, in any order: what every run of them
-- keeps.
use Prim.Native.String.{String}
use e_commerce_nodejs.Base.{ℕ, Bool, Option, List, [], ◌∷◌}
use e_commerce_nodejs.Pricing.Fraction.{Fraction}
use e_commerce_nodejs.Store.{
  Db, ReturnStatus, M, pure, ◌>>◌, attempt, Preserves, Preserves-attempt, Preserves-bind,
  preserves_rules,
}
use e_commerce_nodejs.Payment.{GatewayRegistry, ProviderParams}
use e_commerce_nodejs.Shipping.{Geography}
use e_commerce_nodejs.Cart.{CartIdentity}
use e_commerce_nodejs.Cart.Items.{
  add_item, update_item_quantity, remove_item, clear_cart, merge_guest_cart_into_user,
}
use e_commerce_nodejs.Cart.Laws.{
  IgnoresCarts, add_item-Preserves, update_item_quantity-Preserves, remove_item-Preserves,
  clear_cart-Preserves, merge_guest_cart_into_user-Preserves,
}
use e_commerce_nodejs.Wallet.{
  initiate_wallet_charge, verify_wallet_charge, request_withdrawal, review_withdrawal_admin,
  get_or_create_wallet,
}
use e_commerce_nodejs.Wallet.Ledger.{IsLedger}
use e_commerce_nodejs.Wallet.Ledger.Services.{
  initiate_wallet_charge-IsLedger, verify_wallet_charge-IsLedger, request_withdrawal-IsLedger,
  review_withdrawal_admin-IsLedger,
}
use e_commerce_nodejs.Order.Create.{CreateOrderInput, create_order}
use e_commerce_nodejs.Order.Payment.{initiate_order_payment, verify_order_payment}
use e_commerce_nodejs.Order.Cancellation.{
  cancel_order, cancel_order_admin, run_expire_stale_orders_job,
}
use e_commerce_nodejs.Order.Cancellation.Laws.{
  cancel_order-IsLedger, cancel_order_admin-IsLedger, run_expire_stale_orders_job-IsLedger,
}
use e_commerce_nodejs.Order.Return.{request_return, update_return_admin}
use e_commerce_nodejs.Order.Admin.{StatusInput, update_order_status_admin}
use e_commerce_nodejs.Order.Ledger.{
  initiate_order_payment-IsLedger, verify_order_payment-IsLedger, request_return-IsLedger,
  update_return_admin-IsLedger, update_order_status_admin-IsLedger, create_order-IsLedger,
}
use e_commerce_nodejs.Wallet.Ledger.Frame.{get_or_create_wallet-IsLedger}

-- What is configured: the gateways, the settings and the threshold of a price change.
pub record Shop : Type 0 where
  pub registry : GatewayRegistry
  pub geography : Geography
  pub threshold : Fraction

-- One request with its input; the wallet that registration opens is one that `view_wallet` opens. The adjustment of a wallet by an administrator is not among them.
pub data Call : Type 0 where
  view_wallet : (user_id : ℕ) → Call
  charge_wallet : (user_id amount : ℕ) → String → Call
  verify_charge : (user_id transaction_id : ℕ) → ProviderParams → Call
  withdraw_money : (user_id amount : ℕ) → Call
  review_withdrawal : ℕ → Bool → Option String → Option String → Call
  add_to_cart : CartIdentity → (variant_id quantity : ℕ) → Call
  change_cart : CartIdentity → (item_id quantity : ℕ) → Call
  remove_from_cart : CartIdentity → (item_id : ℕ) → Call
  empty_cart : CartIdentity → Call
  merge_carts : (user_id : ℕ) → String → Call
  place : (user_id : ℕ) → CreateOrderInput → Call
  pay_order : (user_id order_id : ℕ) → Option String → Call
  verify_payment : (user_id order_id : ℕ) → ProviderParams → Call
  cancel : (user_id order_id : ℕ) → String → Call
  cancel_by_admin : (order_id : ℕ) → String → Call
  ask_return : (user_id order_id : ℕ) → Option ℕ → String → List ℕ → Call
  review_return : ℕ → ReturnStatus → Option ℕ → Option String → Call
  set_status : ℕ → StatusInput → Call
  expire : ℕ → Call

-- The service that answers a call at the time `now`; the error of a call that throws goes to the
-- client.
unfoldable pub answer : Shop → ℕ → Call → M (Unit {0})
answer shop now (view_wallet user_id) = attempt (get_or_create_wallet user_id)
answer shop now (charge_wallet user_id amount slug) =
    attempt (initiate_wallet_charge shop.registry user_id amount slug)
answer shop now (verify_charge user_id id params) =
    attempt (verify_wallet_charge shop.registry user_id id params)
answer shop now (withdraw_money user_id amount) = attempt (request_withdrawal user_id amount)
answer shop now (review_withdrawal id approve text code) =
    attempt (review_withdrawal_admin id approve text code now)
answer shop now (add_to_cart identity variant_id quantity) =
    attempt (add_item identity variant_id quantity)
answer shop now (change_cart identity item_id quantity) =
    attempt (update_item_quantity identity item_id quantity)
answer shop now (remove_from_cart identity item_id) = attempt (remove_item identity item_id)
answer shop now (empty_cart identity) = attempt (clear_cart identity)
answer shop now (merge_carts user_id token) = attempt (merge_guest_cart_into_user user_id token)
answer shop now (place user_id input) =
    attempt (create_order shop.geography shop.threshold user_id input now)
answer shop now (pay_order user_id order_id slug) =
    attempt (initiate_order_payment shop.registry user_id order_id slug)
answer shop now (verify_payment user_id order_id params) =
    attempt (verify_order_payment shop.registry user_id order_id params now)
answer shop now (cancel user_id order_id reason) =
    attempt (cancel_order user_id order_id reason now)
answer shop now (cancel_by_admin order_id reason) = attempt (cancel_order_admin order_id reason now)
answer shop now (ask_return user_id order_id item_id reason media) =
    attempt (request_return user_id order_id item_id reason media)
answer shop now (review_return id status amount text) =
    attempt (update_return_admin id status amount text now)
answer shop now (set_status order_id input) = attempt (update_order_status_admin order_id input now)
answer shop now (expire minutes) = run_expire_stale_orders_job minutes now

-- A run of calls, each at its time.
unfoldable pub serve : Shop → List (ℕ × Call) → M (Unit {0})
serve shop [] = pure tt
serve shop (c ∷ cs) = do answer shop c.0 c.1; serve shop cs

ignores_carts : IgnoresCarts IsLedger
ignores_carts = record { frame = λ db carts cart_seq items item_seq h. h }

answer-IsLedger : (shop : Shop) (now : ℕ) (c : Call) → Preserves IsLedger (answer shop now c)
unfolding answer
answer-IsLedger shop now (view_wallet user_id) =
    Preserves-attempt _ (get_or_create_wallet-IsLedger user_id)
answer-IsLedger shop now (charge_wallet user_id amount slug) =
    Preserves-attempt _ (initiate_wallet_charge-IsLedger shop.registry user_id amount slug)
answer-IsLedger shop now (verify_charge user_id id params) =
    Preserves-attempt _ (verify_wallet_charge-IsLedger shop.registry user_id id params)
answer-IsLedger shop now (withdraw_money user_id amount) =
    Preserves-attempt _ (request_withdrawal-IsLedger user_id amount)
answer-IsLedger shop now (review_withdrawal id approve text code) =
    Preserves-attempt _ (review_withdrawal_admin-IsLedger id approve text code now)
answer-IsLedger shop now (add_to_cart identity variant_id quantity) =
    Preserves-attempt _ (add_item-Preserves ignores_carts identity variant_id quantity)
answer-IsLedger shop now (change_cart identity item_id quantity) =
    Preserves-attempt _ (update_item_quantity-Preserves ignores_carts identity item_id quantity)
answer-IsLedger shop now (remove_from_cart identity item_id) =
    Preserves-attempt _ (remove_item-Preserves ignores_carts identity item_id)
answer-IsLedger shop now (empty_cart identity) =
    Preserves-attempt _ (clear_cart-Preserves ignores_carts identity)
answer-IsLedger shop now (merge_carts user_id token) =
    Preserves-attempt _ (merge_guest_cart_into_user-Preserves ignores_carts user_id token)
answer-IsLedger shop now (place user_id input) =
    Preserves-attempt _ (create_order-IsLedger shop.geography shop.threshold user_id input now)
answer-IsLedger shop now (pay_order user_id order_id slug) =
    Preserves-attempt _ (initiate_order_payment-IsLedger shop.registry user_id order_id slug)
answer-IsLedger shop now (verify_payment user_id order_id params) =
    Preserves-attempt _ (verify_order_payment-IsLedger shop.registry user_id order_id params now)
answer-IsLedger shop now (cancel user_id order_id reason) =
    Preserves-attempt _ (cancel_order-IsLedger user_id order_id reason now)
answer-IsLedger shop now (cancel_by_admin order_id reason) =
    Preserves-attempt _ (cancel_order_admin-IsLedger order_id reason now)
answer-IsLedger shop now (ask_return user_id order_id item_id reason media) =
    Preserves-attempt _ (request_return-IsLedger user_id order_id item_id reason media)
answer-IsLedger shop now (review_return id status amount text) =
    Preserves-attempt _ (update_return_admin-IsLedger id status amount text now)
answer-IsLedger shop now (set_status order_id input) =
    Preserves-attempt _ (update_order_status_admin-IsLedger order_id input now)
answer-IsLedger shop now (expire minutes) = run_expire_stale_orders_job-IsLedger minutes now

serve-Preserves : (shop : Shop) (calls : List (ℕ × Call)) → Preserves IsLedger (serve shop calls)
unfolding serve
serve-Preserves shop [] = search preserves_rules
serve-Preserves shop (c ∷ cs) =
    Preserves-bind (answer shop c.0 c.1) (λ _. serve shop cs) (answer-IsLedger shop c.0 c.1)
      (λ _. serve-Preserves shop cs)

-- Whatever calls arrive, without the adjustment of a wallet by an administrator, in whatever order,
-- with whatever answers of the gateways, and whichever of them throw: from a database in which the
-- balance of every wallet is the sum of the rows written for it, they lead to one again.
pub serve-IsLedger :
    (shop : Shop) (calls : List (ℕ × Call)) (db : Db)
    → IsLedger db
    → IsLedger (serve shop calls db).1
serve-IsLedger shop calls db h = (serve-Preserves shop calls).run db h
