-- ===== src/Payment.antt =====
-- Payment gateways: the registry of src/services/payment/payment.factory.ts over the interface of
-- payment.types.ts. No gateway is implemented in the repository, so what a gateway answers is a
-- parameter; a call of it that throws is `none`.
use Prim.Native.String.{String}
use text.Mathlib.Text.{◌==◌ as str_eq}
use e_commerce_nodejs.Base.{ℕ, Bool, not, Option, List, find_by}
use e_commerce_nodejs.Store.{
  PaymentGateway, bad_request, not_found, M, pure, throw_if, or_throw, gets, ◌>>=◌, ◌>>◌,
}

pub record InitiatePaymentResult : Type 0 where
  pub redirect_url : String
  pub gateway_ref_id : String

pub record VerifyPaymentResult : Type 0 where
  pub success : Bool
  pub ref_id : String

abbrev pub ProviderParams : Type 0
ProviderParams = List (String × String)

-- The registered gateways: `orderId` is the number that the services pass, as text.
pub record GatewayRegistry : Type 0 where
  pub is_registered : String → Bool
  pub initiate_payment : String → (order_id : ℕ) → (amount : ℕ) → Option InitiatePaymentResult
  pub verify_payment :
      String → (order_id : ℕ) → (amount : ℕ) → ProviderParams → Option VerifyPaymentResult

-- `getGateway`: a gateway is used by its name here.
unfoldable pub get_gateway : GatewayRegistry → String → M (Unit {0})
get_gateway registry name = throw_if (not (registry.is_registered name)) (bad_request "gateway")

-- `getPaymentGatewayBySlug`
unfoldable pub get_payment_gateway_by_slug : String → M PaymentGateway
get_payment_gateway_by_slug slug = do
  gateway ←
      or_throw (← gets (λ db. find_by (λ g. str_eq g.slug slug) db.payment_gateways))
        (not_found "payment gateway")
  throw_if (not gateway.is_active) (not_found "payment gateway")
  pure gateway
