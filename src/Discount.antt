-- ===== src/Discount.antt =====
-- src/services/discount/discount-apply.service.ts. Codes are stored in upper case, and the code
-- that is looked up has been trimmed and put into upper case.
pub mod Laws
pub mod Evaluation
use Prim.Native.String.{String}
use text.Mathlib.Text.{◌==◌ as str_eq}
use e_commerce_nodejs.Base.{
  ℕ, suc, ◌+◌, ◌*◌, ◌/◌, Bool, true, false, not, ◌&&◌, ◌||◌, Option, none, some, List, [], ◌∷◌, map,
  any, filter, find_by, includes, length, is_none, is_some, ltb, leb, ◌==◌, if◌then◌else◌,
}
use e_commerce_nodejs.Base.Int.{ℤ, pos, ◌+ℤ◌, ◌-ℤ◌, ◌*ℤ◌, floor_div, leb_ℤ, ltb_ℤ, min_ℤ}
use e_commerce_nodejs.Pricing.Engine.{DiscountType}
use e_commerce_nodejs.Store.{
  Db, DiscountCode, DiscountCodeUsage, ApiError, bad_request, not_found, internal, M, ok, pure,
  throw_if, or_throw, gets, when, ◌>>=◌, ◌>>◌, no_row, guarded, update_rows, count_rows,
}
use e_commerce_nodejs.Cart.{
  CartIdentity, of_user, of_guest, CartLine, find_cart, items_of, lines_of, sum_lines,
}

abbrev pub is_after : Option ℕ → ℕ → Bool
is_after none now = false
is_after (some at) now = ltb now at

abbrev pub is_before : Option ℕ → ℕ → Bool
is_before none now = false
is_before (some at) now = ltb at now

-- `limit !== null && count >= limit`
abbrev pub is_exhausted : Option ℕ → ℕ → Bool
is_exhausted none count = false
is_exhausted (some limit) count = leb limit count

-- `findActiveCodeOrThrow`
unfoldable pub find_active_code_or_throw : String → ℕ → M DiscountCode
find_active_code_or_throw code now = do
  d ←
      or_throw (← gets (λ db. find_by (λ d. str_eq d.code code) db.discount_codes))
        (not_found "discount code")
  throw_if (not d.is_active) (bad_request "not active")
  throw_if (is_after d.starts_at now) (bad_request "not active yet")
  throw_if (is_before d.expires_at now) (bad_request "expired")
  throw_if (is_exhausted d.max_usage d.usage_count) (bad_request "used up")
  pure d

abbrev pub is_empty {ℓ} : {A : Type ℓ} → List A → Bool
is_empty [] = true
is_empty (_ ∷ _) = false

-- The uses of a code by a user.
abbrev pub used_by : ℕ → ℕ → Db → ℕ
used_by code_id user_id db =
    count_rows (λ (u : DiscountCodeUsage). u.discount_code_id == code_id && u.user_id == user_id)
      db.usages

abbrev pub requires_login : DiscountCode → Bool
requires_login d = not (is_empty d.users) || is_some d.max_usage_per_user

-- `assertUserEligibility`; a guest is `none`.
unfoldable pub assert_user_eligibility : DiscountCode → Option ℕ → M (Unit {0})
assert_user_eligibility d none = throw_if (requires_login d) (bad_request "log in")
assert_user_eligibility d (some user_id) = do
  throw_if (not (is_empty d.users) && not (includes user_id d.users)) (bad_request "not for you")
  used ← gets (used_by d.id user_id)
  throw_if (is_exhausted d.max_usage_per_user used) (bad_request "used too often")

-- `isItemEligible`
abbrev pub is_item_eligible : DiscountCode → CartLine → Bool
is_item_eligible d item =
    if is_empty d.products && is_empty d.categories
    then true
    else includes item.product_id d.products
      || any (λ (id : ℕ). includes id d.categories) item.category_ids

abbrev pub raw_amount : DiscountType → ℕ → ℤ → ℤ
raw_amount DiscountType.percent value subtotal = floor_div (subtotal *ℤ pos value) 100
raw_amount DiscountType.fixed value subtotal = pos value

-- A cap of 0 is no cap.
abbrev pub cap : Option ℕ → ℤ → ℤ
cap none raw = raw
cap (some limit) raw = if limit == 0 then raw else min_ℤ raw (pos limit)

-- `calculateDiscountAmount`
unfoldable pub calculate_discount_amount : DiscountCode → ℤ → ℤ
calculate_discount_amount d subtotal =
    if leb_ℤ subtotal (pos 0)
    then pos 0
    else min_ℤ (cap d.max_discount_amount (raw_amount d.type d.value subtotal)) subtotal

pub record DiscountEvaluationResult : Type 0 where
  pub discount_code_id : ℕ
  pub cart_total : ℤ
  pub eligible_subtotal : ℤ
  pub discount_amount : ℤ
  pub payable_total : ℤ
  pub eligible_variant_ids : List ℕ

abbrev user_of : CartIdentity → Option ℕ
user_of (of_user id) = some id
user_of (of_guest token) = none

-- `getCartLineItemsForDiscount`: nothing where there is no cart, and an error of the price engine.
abbrev pub lines_for_discount : CartIdentity → Db → Option (List CartLine)
lines_for_discount identity db = elim (find_cart identity db) [
  | none ↦ some []
  | some cart ↦ lines_of db (items_of cart db)
]

abbrev pub line_amount : CartLine → ℤ
line_amount l = l.unit_price *ℤ pos l.quantity

abbrev pub is_restricted : DiscountCode → Bool
is_restricted d = not (is_empty d.products) || not (is_empty d.categories)

-- `minCartAmount && cartTotal < minCartAmount`: a minimum of 0 is none.
abbrev pub is_below_minimum : Option ℕ → ℤ → Bool
is_below_minimum none total = false
is_below_minimum (some limit) total = not (limit == 0) && ltb_ℤ total (pos limit)

-- The result for the lines of the cart.
unfoldable pub evaluation : DiscountCode → List CartLine → DiscountEvaluationResult
evaluation d lines =
    let eligible = filter (is_item_eligible d) lines in
    let total = sum_lines line_amount lines in
    let subtotal = sum_lines line_amount eligible in
    let amount = calculate_discount_amount d subtotal in
    record {
      discount_code_id = d.id;
      cart_total = total;
      eligible_subtotal = subtotal;
      discount_amount = amount;
      payable_total = total -ℤ amount;
      eligible_variant_ids = map (λ (l : CartLine). l.variant_id) eligible;
    }

-- `evaluateDiscountCode`
unfoldable pub evaluate_discount_code : String → CartIdentity → ℕ → M DiscountEvaluationResult
evaluate_discount_code code identity now = do
  d ← find_active_code_or_throw code now
  assert_user_eligibility d (user_of identity)
  lines ← or_throw (← gets (lines_for_discount identity)) (internal "price")
  throw_if (is_empty lines) (bad_request "cart is empty")
  throw_if (is_below_minimum d.min_cart_amount (sum_lines line_amount lines))
      (bad_request "cart is below the minimum")
  throw_if (is_restricted d && is_empty (filter (is_item_eligible d) lines))
      (bad_request "no item is eligible")
  pure (evaluation d lines)

unfoldable pub create_usage : DiscountCodeUsage → M (Unit {0})
create_usage u db = (ok tt, record db { usages = u ∷ db.usages })

unfoldable pub count_usage : ℕ → M (Unit {0})
count_usage id db =
    guarded no_row (any (λ (d : DiscountCode). d.id == id) db.discount_codes)
      (record db {
        discount_codes =
            update_rows (λ (d : DiscountCode). d.id == id)
              (λ d. record d { usage_count = suc d.usage_count }) db.discount_codes;
      })
      db

-- `recordDiscountCodeUsage`
unfoldable pub record_discount_code_usage : DiscountCodeUsage → M (Unit {0})
record_discount_code_usage u = do create_usage u; count_usage u.discount_code_id
