-- ===== src/Store/Rows.antt =====
-- The rows of the database tables that the services read and write (prisma/schema.prisma), with the
-- columns that decide what the services do. Times are milliseconds; amounts are whole Tomans.
use Prim.Native.String.{String}
use e_commerce_nodejs.Base.{ℕ, Option, List, Bool}
use e_commerce_nodejs.Base.Int.{ℤ}
use e_commerce_nodejs.Pricing.Fraction.{Fraction}
use e_commerce_nodejs.Pricing.Engine.{PricingMode, DiscountType, Modifier}

pub data OrderStatus : Type 0 where
  pending_payment processing shipped delivered cancelled return_requested returned refunded failed :
      OrderStatus

pub data PaymentMethod : Type 0 where
  gateway wallet mixed freight_collect : PaymentMethod

pub data PaymentStatus : Type 0 where
  pending success failed refunded : PaymentStatus

pub data TransactionType : Type 0 where
  order_payment wallet_charge refund : TransactionType

pub data WalletTransactionType : Type 0 where
  deposit withdraw purchase refund admin_adjust withdrawal_request : WalletTransactionType

pub data ReturnStatus : Type 0 where
  pending approved rejected received refunded : ReturnStatus

pub data WithdrawalStatus : Type 0 where
  pending approved rejected : WithdrawalStatus

pub data NotificationType : Type 0 where
  order wallet ticket : NotificationType

-- A variant with the modifiers of its attribute values.
pub record Variant : Type 0 where
  pub id : ℕ
  pub product_id : ℕ
  pub price_adjustment : ℤ
  pub stock : ℕ
  pub weight : Option Fraction
  pub is_active : Bool
  pub attribute_values : List Modifier

-- A product with its categories; `currency` is the `currentRate` of its currency, if it has one.
pub record Product : Type 0 where
  pub id : ℕ
  pub is_published : Bool
  pub base_price : ℤ
  pub pricing_mode : PricingMode
  pub source_price : Option Fraction
  pub price_buffer_percent : Option Fraction
  pub currency : Option (Option Fraction)
  pub discount_type : Option DiscountType
  pub discount_value : Option ℕ
  pub category_ids : List ℕ
  pub min_price : ℤ
  pub max_price : ℤ
  pub is_in_stock : Bool
  pub has_active_discount : Bool
  pub total_sold : ℕ

pub record Wallet : Type 0 where
  pub id : ℕ
  pub user_id : ℕ
  pub balance : ℤ

pub record WalletTransaction : Type 0 where
  pub wallet_id : ℕ
  pub type : WalletTransactionType
  pub amount : ℕ
  pub order_id : Option ℕ

pub record Transaction : Type 0 where
  pub id : ℕ
  pub order_id : Option ℕ
  pub gateway_id : Option ℕ
  pub user_id : ℕ
  pub type : TransactionType
  pub amount : ℕ
  pub status : PaymentStatus
  pub ref_id : Option String

pub record PaymentGateway : Type 0 where
  pub id : ℕ
  pub slug : String
  pub is_active : Bool

pub record WalletWithdrawal : Type 0 where
  pub id : ℕ
  pub user_id : ℕ
  pub amount : ℕ
  pub status : WithdrawalStatus
  pub admin_note : Option String
  pub tracking_code : Option String
  pub reviewed_at : Option ℕ

pub record OrderItem : Type 0 where
  pub id : ℕ
  pub variant_id : ℕ
  pub price : ℤ
  pub quantity : ℕ
  pub discount_amount : ℤ

pub record Order : Type 0 where
  pub id : ℕ
  pub user_id : ℕ
  pub items : List OrderItem
  pub shipping_cost : ℤ
  pub subtotal : ℤ
  pub discount_amount : ℤ
  pub total_amount : ℤ
  pub discount_code_id : Option ℕ
  pub payment_method : PaymentMethod
  pub status : OrderStatus
  pub paid_at : Option ℕ
  pub tracking_code : Option String
  pub package_number : Option String
  pub created_at : ℕ

pub record OrderStatusHistory : Type 0 where
  pub order_id : ℕ
  pub status : OrderStatus
  pub note : Option String

pub record OrderCancellation : Type 0 where
  pub order_id : ℕ
  pub reason : String
  pub reviewed_at : ℕ

pub record OrderReturn : Type 0 where
  pub id : ℕ
  pub order_id : ℕ
  pub order_item_id : Option ℕ
  pub reason : String
  pub status : ReturnStatus
  pub refund_amount : Option ℕ
  pub image_media_ids : List ℕ
  pub admin_note : Option String
  pub reviewed_at : Option ℕ

pub record CartItem : Type 0 where
  pub id : ℕ
  pub cart_id : ℕ
  pub variant_id : ℕ
  pub quantity : ℕ

pub record Cart : Type 0 where
  pub id : ℕ
  pub user_id : Option ℕ
  pub guest_token : Option String

-- A discount code with its `products`, `categories` and `users` relations.
pub record DiscountCode : Type 0 where
  pub id : ℕ
  pub code : String
  pub type : DiscountType
  pub value : ℕ
  pub max_discount_amount : Option ℕ
  pub min_cart_amount : Option ℕ
  pub max_usage : Option ℕ
  pub max_usage_per_user : Option ℕ
  pub usage_count : ℕ
  pub starts_at : Option ℕ
  pub expires_at : Option ℕ
  pub is_active : Bool
  pub products : List ℕ
  pub categories : List ℕ
  pub users : List ℕ

pub record DiscountCodeUsage : Type 0 where
  pub discount_code_id : ℕ
  pub user_id : ℕ
  pub order_id : ℕ
  pub discount_amount : ℤ

pub record Media : Type 0 where
  pub id : ℕ
  pub uploaded_by_id : Option ℕ

-- The coordinates of an address, or of the warehouse.
pub record Address : Type 0 where
  pub id : ℕ
  pub user_id : ℕ
  pub lat : Option Fraction
  pub lng : Option Fraction

pub data ShippingPricingType : Type 0 where
  fixed weight_distance : ShippingPricingType

pub record ShippingCompany : Type 0 where
  pub id : ℕ
  pub pricing_type : ShippingPricingType
  pub base_cost : ℤ
  pub price_per_kg : Option ℤ
  pub price_per_km : Option ℤ
  pub accepts_prepay : Bool
  pub accepts_freight_collect : Bool
  pub is_active : Bool

pub record Notification : Type 0 where
  pub user_id : ℕ
  pub type : NotificationType

-- The tables. Newer rows stand first, so that the first match of a query is its newest; a `_seq` is
-- the next value of a table's autoincrement column.
pub record Db : Type 0 where
  pub variants : List Variant
  pub products : List Product
  pub wallets : List Wallet
  pub wallet_seq : ℕ
  pub wallet_transactions : List WalletTransaction
  pub transactions : List Transaction
  pub transaction_seq : ℕ
  pub payment_gateways : List PaymentGateway
  pub withdrawals : List WalletWithdrawal
  pub withdrawal_seq : ℕ
  pub orders : List Order
  pub order_seq : ℕ
  pub order_item_seq : ℕ
  pub addresses : List Address
  pub shipping_companies : List ShippingCompany
  pub status_history : List OrderStatusHistory
  pub cancellations : List OrderCancellation
  pub returns : List OrderReturn
  pub return_seq : ℕ
  pub carts : List Cart
  pub cart_seq : ℕ
  pub cart_items : List CartItem
  pub cart_item_seq : ℕ
  pub discount_codes : List DiscountCode
  pub usages : List DiscountCodeUsage
  pub media : List Media
  pub notifications : List Notification
  pub admin_notifications : List NotificationType
