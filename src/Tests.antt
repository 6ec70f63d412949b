-- ===== src/Tests.antt =====
-- A small shop on which the services run, and the theorems at its values.
pub mod Witnesses
pub mod Runs
pub mod Accounts
pub mod Platform
pub mod Catalogue
use Prim.Native.String.{String}
use e_commerce_nodejs.Base.{
  ℕ, suc, ◌+◌, ◌*◌, ◌≡◌, ◌≤◌, ◌<◌, refl, arith, min, Bool, true, false, Option, none, some, OnSome,
  List, [], ◌∷◌, All, ◌⊎◌, ◌==◌,
}
use e_commerce_nodejs.Base.Int.{ℤ, pos, negsuc, ◌+ℤ◌, ◌≤ℤ◌}
use e_commerce_nodejs.Pricing.Fraction.{Fraction, whole}
use e_commerce_nodejs.Pricing.Engine.{
  PricingMode, DiscountType, ModifierType, Modifier, ProductPricingInput, calculate_variant_price,
}
use e_commerce_nodejs.Store.{
  Db, Variant, Product, Wallet, WalletTransaction, WalletTransactionType, Transaction,
  TransactionType, PaymentStatus, PaymentGateway, Order, OrderItem, OrderStatus, PaymentMethod,
  Cart, CartItem, DiscountCode, ApiError, Result, ok, err, Returns, Ensures, Preserves, M, ◌>>=◌,
  ◌>>◌, find_order, NotificationType,
}

abbrev pub shirt : Product
shirt = record {
  id = 1;
  is_published = true;
  base_price = pos 200;
  pricing_mode = PricingMode.fixed_irt;
  source_price = none;
  price_buffer_percent = none;
  currency = none;
  discount_type = some DiscountType.percent;
  discount_value = some 10;
  category_ids = 3 ∷ [];
  min_price = pos 0;
  max_price = pos 0;
  is_in_stock = false;
  has_active_discount = false;
  total_sold = 0;
}

abbrev pub small : Variant
small = record {
  id = 7;
  product_id = 1;
  price_adjustment = pos 20;
  stock = 4;
  weight = none;
  is_active = true;
  attribute_values = [];
}

-- An order of two small shirts, paid from the wallet.
abbrev pub bought : Order
bought = record {
  id = 1;
  user_id = 5;
  items =
      record { id = 1; variant_id = 7; price = pos 198; quantity = 2; discount_amount = pos 0 }
      ∷ [];
  shipping_cost = pos 0;
  subtotal = pos 396;
  discount_amount = pos 0;
  total_amount = pos 396;
  discount_code_id = none;
  payment_method = PaymentMethod.wallet;
  status = OrderStatus.processing;
  paid_at = some 10;
  tracking_code = none;
  package_number = none;
  created_at = 10;
}

abbrev pub row : WalletTransactionType → ℕ → Option ℕ → WalletTransaction
row type amount order_id = record {
  wallet_id = 1;
  type = type;
  amount = amount;
  order_id = order_id;
}

abbrev pub welcome : DiscountCode
welcome = record {
  id = 1;
  code = "WELCOME";
  type = DiscountType.percent;
  value = 50;
  max_discount_amount = some 60;
  min_cart_amount = some 100;
  max_usage = some 2;
  max_usage_per_user = some 1;
  usage_count = 0;
  starts_at = none;
  expires_at = some 1000;
  is_active = true;
  products = [];
  categories = 3 ∷ [];
  users = [];
}

-- Customer 5 has paid an order from the wallet, and has one more shirt in the cart.
abbrev pub shop : Db
shop = record {
  variants = small ∷ [];
  products = shirt ∷ [];
  wallets = record { id = 1; user_id = 5; balance = pos 104 } ∷ [];
  wallet_seq = 2;
  wallet_transactions =
      row WalletTransactionType.purchase 396 (some 1)
      ∷ row WalletTransactionType.deposit 500 none
      ∷ [];
  transactions =
      record {
        id = 1;
        order_id = none;
        gateway_id = some 1;
        user_id = 5;
        type = TransactionType.wallet_charge;
        amount = 30;
        status = PaymentStatus.pending;
        ref_id = none;
      }
      ∷ [];
  transaction_seq = 2;
  payment_gateways = record { id = 1; slug = "zarinpal"; is_active = true } ∷ [];
  withdrawals = [];
  withdrawal_seq = 1;
  orders = bought ∷ [];
  order_seq = 2;
  order_item_seq = 2;
  addresses = [];
  shipping_companies = [];
  status_history = [];
  cancellations = [];
  returns = [];
  return_seq = 1;
  carts = record { id = 1; user_id = some 5; guest_token = none } ∷ [];
  cart_seq = 2;
  cart_items = record { id = 1; cart_id = 1; variant_id = 7; quantity = 1 } ∷ [];
  cart_item_seq = 2;
  discount_codes = welcome ∷ [];
  usages = [];
  media = [];
  notifications = [];
  admin_notifications = [];
}
