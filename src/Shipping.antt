-- ===== src/Shipping.antt =====
-- The cost of shipping: `calculateShippingCost` of src/services/shipping/shipping-company.service.ts
-- and the estimate of src/services/order/order.service.ts. The distance on the globe
-- (src/utils/geo.ts) uses the sines and roots of JavaScript's Math, and is a parameter here, with the
-- settings of the shop.
use e_commerce_nodejs.Base.{
  ℕ, Bool, true, false, not, Option, none, some, List, [], ◌∷◌, find_by, is_some, or_else, ◌==◌,
  if◌then◌else◌,
}
use e_commerce_nodejs.Base.Int.{ℤ, pos, ◌*ℤ◌, leb_ℤ}
use e_commerce_nodejs.Pricing.Fraction.{Fraction, over, whole, add, times, round}
use e_commerce_nodejs.Store.{
  Db, Address, ShippingCompany, weight_distance, bad_request, not_found, M, pure, throw_if,
  or_throw, gets, ◌>>=◌, ◌>>◌,
}
use e_commerce_nodejs.Cart.{of_user, CartLine, CartSummary, get_cart}

-- The settings that are read, where they are numbers, and the haversine distance in kilometres.
pub record Geography : Type 0 where
  pub warehouse_lat : Option Fraction
  pub warehouse_lng : Option Fraction
  pub road_factor : Option Fraction
  pub haversine_distance_km : Fraction × Fraction → Fraction × Fraction → Fraction

abbrev positive : Fraction → Bool
positive (over a d) = not (leb_ℤ a (pos 0))

-- A factor that is missing or not positive is 1.3.
abbrev pub factor : Option Fraction → Fraction
factor none = over (pos 13) 9
factor (some f) = if positive f then f else over (pos 13) 9

abbrev pub coordinates : Option Fraction → Option Fraction → Option (Fraction × Fraction)
coordinates (some lat) (some lng) = some (lat, lng)
coordinates _ _ = none

abbrev road_distance :
    Geography → Option (Fraction × Fraction) → Option (Fraction × Fraction) → Option ℤ
road_distance g (some to) (some from) =
    some (round (times (g.haversine_distance_km from to) (factor g.road_factor)))
road_distance g _ _ = none

-- `computeServerSideDistance`; `none` is an `unavailableReason`.
unfoldable pub compute_server_side_distance : Geography → Address → Option ℤ
compute_server_side_distance g address =
    road_distance g (coordinates address.lat address.lng)
      (coordinates g.warehouse_lat g.warehouse_lng)

abbrev pub sum_weights : List CartLine → Fraction
sum_weights [] = whole (pos 0)
sum_weights (l ∷ ls) =
    add (times (or_else l.weight (whole (pos 0))) (whole (pos l.quantity))) (sum_weights ls)

-- `computeCartWeightGrams`
unfoldable pub compute_cart_weight_grams : CartSummary → ℤ
compute_cart_weight_grams cart = round (times (sum_weights cart.items) (whole (pos 1000)))

-- `calculateShippingCost`: the weight counts in thousandths.
unfoldable pub calculate_shipping_cost : ShippingCompany → ℤ → ℤ → Fraction
calculate_shipping_cost company weight_grams distance = elim company.pricing_type [
  | weight_distance ↦
      add (over (or_else company.price_per_kg (pos 0) *ℤ weight_grams) 999)
        (whole (or_else company.price_per_km (pos 0) *ℤ distance))
  | _ ↦ whole company.base_cost
]

abbrev pub find_address : ℕ → Db → Option Address
find_address id db = find_by (λ (a : Address). a.id == id) db.addresses

abbrev pub find_company : ℕ → Db → Option ShippingCompany
find_company id db = find_by (λ (c : ShippingCompany). c.id == id) db.shipping_companies

abbrev pub is_weighed : ShippingCompany → Bool
is_weighed company = elim company.pricing_type [ weight_distance ↦ true | _ ↦ false ]

-- The address of the customer, and the company if it is active.
unfoldable pub own_address : ℕ → ℕ → M Address
own_address user_id address_id = do
  address ← or_throw (← gets (find_address address_id)) (not_found "address")
  throw_if (not (address.user_id == user_id)) (not_found "address")
  pure address

unfoldable pub active_company : ℕ → M ShippingCompany
active_company company_id = do
  company ← or_throw (← gets (find_company company_id)) (bad_request "shipping company")
  throw_if (not company.is_active) (bad_request "shipping company")
  pure company

pub record ShippingEstimateResult : Type 0 where
  pub shipping_cost : Fraction
  pub weight_grams : ℤ
  pub distance_km : Option ℤ
  pub is_distance_unavailable : Bool

abbrev distance_of : Geography → ShippingCompany → Address → Option ℤ
distance_of g company address =
    if is_weighed company then compute_server_side_distance g address else none

-- `estimateShippingCost`
unfoldable pub estimate_shipping_cost : Geography → ℕ → ℕ → ℕ → M ShippingEstimateResult
estimate_shipping_cost g user_id address_id company_id = do
  cart ← get_cart (of_user user_id)
  address ← own_address user_id address_id
  company ← active_company company_id
  let weight = compute_cart_weight_grams cart
  let distance = distance_of g company address
  pure (record {
    shipping_cost = calculate_shipping_cost company weight (or_else distance (pos 0));
    weight_grams = weight;
    distance_km = distance;
    is_distance_unavailable = if is_weighed company then not (is_some distance) else false;
  })
