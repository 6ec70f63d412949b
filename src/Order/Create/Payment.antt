-- ===== src/Order/Create/Payment.antt =====
-- How the total of an order is split between the wallet and the gateway.
use Prim.Native.String.{String}
use e_commerce_nodejs.Base.{
  ℕ, ◌≡◌, refl, arith, false, Option, none, some, Bool-cases, inl, inr, All, ap, Option-cases,
  eq→==, not-false, true,
}
use e_commerce_nodejs.Base.Int.{ℤ, pos, ◌+ℤ◌, ◌-ℤ◌, ◌≤ℤ◌, min_ℤ, ltb_ℤ, int_laws, -ℤ_parts, negsuc}
use e_commerce_nodejs.Store.{
  PaymentMethod, PaymentGateway, Wallet, Ensures, Ensures-kept, Ensures-bind, Ensures-check,
  Ensures-pure, Db, find_wallet_of_user, Ensures-found, Ensures-knowing, preserves_rules,
  find_by-All, create_wallet, gets, pure, ◌>>=◌,
}
use e_commerce_nodejs.Order.Create.{PaymentPlan, with_gateway, plan_payment}
use e_commerce_nodejs.Wallet.{get_or_create_wallet, existing_or_new, create_empty_wallet}
use e_commerce_nodejs.Payment.{get_payment_gateway_by_slug}

-- What is to be paid before the order is sent.
abbrev pub due : PaymentMethod → ℤ → ℤ
due PaymentMethod.freight_collect total = pos 0
due PaymentMethod.gateway total = total
due PaymentMethod.wallet total = total
due PaymentMethod.mixed total = total

-- A wallet, if any, is the user's.
abbrev IsOwn : ℕ → Option Wallet → Db → Type 0
IsOwn user_id none db = Unit
IsOwn user_id (some w) db = find_wallet_of_user user_id db ≡ some w

abbrev IsCovered : Option Wallet → ℤ → Type 0
IsCovered none portion = portion ≡ pos 0
IsCovered (some w) portion = portion ≤ℤ w.balance

abbrev HasGateway : Option PaymentGateway → ℤ → Type 0
HasGateway none rest = rest ≡ pos 0
HasGateway (some g) rest = (pos 1 ≤ℤ rest) × (g.is_active ≡ true)

-- Two portions that are not negative and make up the amount: one from the wallet of the user, within
-- its balance, and one through an active gateway, which is chosen exactly where this portion is not 0.
pub record IsSplit (user_id : ℕ) (amount : ℤ) (p : PaymentPlan) (db : Db) : Type 0 where
  pub adds_up : p.wallet_portion +ℤ p.gateway_portion ≡ amount
  pub wallet_nonneg : pos 0 ≤ℤ p.wallet_portion
  pub gateway_nonneg : pos 0 ≤ℤ p.gateway_portion
  pub own : IsOwn user_id p.wallet db
  pub covered : IsCovered p.wallet p.wallet_portion
  pub has_gateway : HasGateway p.gateway p.gateway_portion

gateway-IsActive :
    {P : Db → Type 0} (slug : String)
    → Ensures P (get_payment_gateway_by_slug slug) (λ g db. P db × (g.is_active ≡ true))
unfolding get_payment_gateway_by_slug
gateway-IsActive slug = Ensures-bind _ _ (Ensures-kept _ (search preserves_rules)) (λ o.
    Ensures-found _ _ _ (λ g _.
      Ensures-check _ _ _ (λ active. Ensures-pure g (λ db h. (h, not-false g.is_active active)))))

nothing_left : (rest : ℤ) → pos 0 ≤ℤ rest → ltb_ℤ (pos 0) rest ≡ false → rest ≡ pos 0
nothing_left (pos n) h k = ap pos (ground arith)
nothing_left (negsuc n) h k = absurd (omega arith)

module _ (user_id : ℕ) where
  with_gateway-IsSplit :
      (w : Option Wallet) (portion rest amount : ℤ) (slug : Option String)
      → portion +ℤ rest ≡ amount
      → pos 0 ≤ℤ portion
      → pos 0 ≤ℤ rest
      → IsCovered w portion
      → Ensures (IsOwn user_id w) (with_gateway w portion rest slug) (IsSplit user_id amount)
  unfolding with_gateway
  with_gateway-IsSplit w portion rest amount slug e n m c = elim (Bool-cases (ltb_ℤ (pos 0) rest)) [
    | inl online ↦ rw online (
        Ensures-found _ _ _ (λ s _. Ensures-bind _ _ (gateway-IsActive s) (λ g.
          Ensures-pure _ (λ db h. record {
            adds_up = e;
            wallet_nonneg = n;
            gateway_nonneg = m;
            own = h.0;
            covered = c;
            has_gateway = (ground arith, h.1);
          }))))
    | inr paid ↦ rw paid (
        Ensures-pure _ (λ db h. record {
          adds_up = e;
          wallet_nonneg = n;
          gateway_nonneg = m;
          own = h;
          covered = c;
          has_gateway = nothing_left rest m paid;
        }))
  ]

  -- No balance is negative.
  abbrev pub Solvent : Db → Type 0
  Solvent db = All (λ (w : Wallet). pos 0 ≤ℤ w.balance) db.wallets

  get_or_create_wallet-IsOwn :
      Ensures Solvent
        (get_or_create_wallet user_id)
        (λ w db. (IsOwn user_id (some w) db) × (pos 0 ≤ℤ w.balance))
  unfolding get_or_create_wallet existing_or_new create_empty_wallet create_wallet gets pure ◌>>=◌
  get_or_create_wallet-IsOwn = record {
    run = λ db h. elim (Option-cases (find_wallet_of_user user_id db)) [
      | inl new ↦ rw (new, eq→== user_id user_id refl) (refl, omega arith)
      | inr (w, old) ↦ rw old (old, find_by-All _ _ w db.wallets h old)
    ];
  }

  -- Where no wallet is overdrawn and the total is not negative, a plan of payment splits what is due, all
  -- of the total or nothing if the freight is collected, into two portions that are not negative: one
  -- from the wallet of the user, within its balance, and one through an active gateway, which is chosen
  -- exactly where this portion is not 0.
  pub plan_payment-IsSplit :
      (method : PaymentMethod) (total : ℤ) (slug : Option String)
      → pos 0 ≤ℤ total
      → Ensures Solvent
          (plan_payment user_id method total slug)
          (IsSplit user_id (due method total))
  unfolding plan_payment
  plan_payment-IsSplit PaymentMethod.freight_collect total slug h = Ensures-pure _ (λ db _. record {
    adds_up = omega int_laws;
    wallet_nonneg = omega arith;
    gateway_nonneg = omega arith;
    own = tt;
    covered = refl;
    has_gateway = refl;
  })
  plan_payment-IsSplit PaymentMethod.gateway total slug h = record {
    run = λ db _.
        (with_gateway-IsSplit none (pos 0) total total slug (omega int_laws) (omega arith) h
            refl).run
          db tt;
  }
  plan_payment-IsSplit PaymentMethod.wallet total slug h =
      Ensures-bind _ _ get_or_create_wallet-IsOwn (λ w. Ensures-knowing _ (λ _.
        Ensures-check _ _ _ (λ enough.
          with_gateway-IsSplit (some w) total (total -ℤ total) total slug (omega int_laws) h
            (ground (arith, -ℤ_parts total total)) (ground arith))))
  plan_payment-IsSplit PaymentMethod.mixed total slug h =
      Ensures-bind _ _ get_or_create_wallet-IsOwn (λ w. Ensures-knowing _ (λ solvent.
        with_gateway-IsSplit (some w) (min_ℤ w.balance total) (total -ℤ min_ℤ w.balance total) total
          slug (omega int_laws) (ground arith)
          (ground (arith, -ℤ_parts total (min_ℤ w.balance total))) (ground arith)))
