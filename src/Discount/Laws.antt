-- ===== src/Discount/Laws.antt =====
-- What a discount code gives: bounds of the amount, and when a code is taken at all.
use Prim.Native.String.{String}
use text.Mathlib.Text.{◌==◌ as str_eq}
use e_commerce_nodejs.Base.{
  ℕ, ◌<◌, ◌≡◌, arith, true, false, Bool-cases, inl, inr, not-false, Option, none, some, ◌≤◌, OnSome,
  find_by,
}
use e_commerce_nodejs.Base.Int.{ℤ, pos, ◌*ℤ◌, ◌≤ℤ◌, floor_div-nonneg, *ℤ-nonneg, leb_ℤ, max_ℤ}
use e_commerce_nodejs.Pricing.Engine.{DiscountType}
use e_commerce_nodejs.Store.{
  DiscountCode, Ensures, Ensures-check, Ensures-pure, Db, Ensures-reads, Ensures-found,
}
use e_commerce_nodejs.Discount.{
  calculate_discount_amount, raw_amount, cap, is_after, is_before, is_exhausted,
  find_active_code_or_throw,
}

raw_amount-nonneg :
    (type : DiscountType) (value : ℕ) (subtotal : ℤ)
    → pos 0 ≤ℤ subtotal
    → pos 0 ≤ℤ raw_amount type value subtotal
raw_amount-nonneg DiscountType.percent value subtotal h =
    floor_div-nonneg (subtotal *ℤ pos value) 100 (*ℤ-nonneg subtotal (pos value) h (omega arith))
raw_amount-nonneg DiscountType.fixed value subtotal h = omega arith

cap-nonneg : (limit : Option ℕ) (raw : ℤ) → pos 0 ≤ℤ raw → pos 0 ≤ℤ cap limit raw
cap-nonneg none raw h = h
cap-nonneg (some limit) raw h = ground arith

-- The amount is not negative, it is at most what the eligible items cost, and at most the cap of the
-- code where there is one.
pub record IsDiscount (d : DiscountCode) (subtotal amount : ℤ) : Type 0 where
  pub nonneg : pos 0 ≤ℤ amount
  pub within_subtotal : amount ≤ℤ max_ℤ subtotal (pos 0)
  pub within_cap :
      (limit : ℕ) → d.max_discount_amount ≡ some limit → 0 < limit → amount ≤ℤ pos limit

cap-le :
    (max_amount : Option ℕ) (raw : ℤ) (limit : ℕ)
    → max_amount ≡ some limit
    → 0 < limit
    → cap max_amount raw ≤ℤ pos limit
cap-le none raw limit e h = absurd cc
cap-le (some k) raw limit e h = ground arith

pub calculate_discount_amount-IsDiscount :
    (d : DiscountCode) (subtotal : ℤ) → IsDiscount d subtotal (calculate_discount_amount d subtotal)
unfolding calculate_discount_amount
calculate_discount_amount-IsDiscount d subtotal = elim (Bool-cases (leb_ℤ subtotal (pos 0))) [
  | inl small ↦ rw small (record {
    nonneg = omega arith;
    within_subtotal = ground arith;
    within_cap = λ limit e h. omega arith;
  })
  | inr large ↦ rw large (record {
    nonneg = ground (
      arith,
      cap-nonneg d.max_discount_amount (raw_amount d.type d.value subtotal)
          (raw_amount-nonneg d.type d.value subtotal (ground arith)),
    );
    within_subtotal = ground arith;
    within_cap = λ limit e h.
        ground (arith, cap-le d.max_discount_amount (raw_amount d.type d.value subtotal) limit e h);
  })
]

pub is_after-false : (at : Option ℕ) (now : ℕ) → is_after at now ≡ false → OnSome (λ t. t ≤ now) at
is_after-false none now h = tt
is_after-false (some t) now h = ground arith

pub is_before-false :
    (at : Option ℕ) (now : ℕ) → is_before at now ≡ false → OnSome (λ t. now ≤ t) at
is_before-false none now h = tt
is_before-false (some t) now h = ground arith

pub is_exhausted-false :
    (limit : Option ℕ) (count : ℕ)
    → is_exhausted limit count ≡ false
    → OnSome (λ l. count < l) limit
is_exhausted-false none count h = tt
is_exhausted-false (some l) count h = ground arith

-- The code of that name in the database, active, begun, not over, and with uses left.
pub record IsUsable (start : Db) (code : String) (now : ℕ) (d : DiscountCode) : Type 0 where
  pub named : find_by (λ (c : DiscountCode). str_eq c.code code) start.discount_codes ≡ some d
  pub active : d.is_active ≡ true
  pub started : OnSome (λ t. t ≤ now) d.starts_at
  pub not_expired : OnSome (λ t. now ≤ t) d.expires_at
  pub uses_left : OnSome (λ limit. d.usage_count < limit) d.max_usage

-- A code that is returned is the one that was asked for, it is active, the time is neither before its
-- start nor after its end, and it was used less often than its limit; the database is as it was.
pub find_active_code_or_throw-IsUsable :
    (code : String) (now : ℕ) (start : Db)
    → Ensures
        (λ db. db ≡ start)
        (find_active_code_or_throw code now)
        (λ d db. (db ≡ start) × IsUsable start code now d)
unfolding find_active_code_or_throw
find_active_code_or_throw-IsUsable code now start = Ensures-reads _ start _ (
    Ensures-found _ _ _ (λ d found. Ensures-check _ _ _ (λ active. Ensures-check _ _ _ (λ started.
      Ensures-check _ _ _ (λ not_expired. Ensures-check _ _ _ (λ left. Ensures-pure d (λ db h. (
        h,
        record {
          named = found;
          active = not-false d.is_active active;
          started = is_after-false d.starts_at now started;
          not_expired = is_before-false d.expires_at now not_expired;
          uses_left = is_exhausted-false d.max_usage d.usage_count left;
        },
      ))))))))
