-- ===== src/Discount/Evaluation.antt =====
-- What evaluateDiscountCode of src/services/discount/discount-apply.service.ts reports of a cart.
use Prim.Native.String.{String}
use e_commerce_nodejs.Base.{
  ℕ, ◌≡◌, refl, Bool, true, false, ◌&&◌, Bool-cases, inl, inr, and_true, Option, none, some, List,
  [], ◌∷◌, any, filter, includes, eq→==, ==→eq, or_later, not_both, ◌==◌, if◌then◌else◌,
}
use e_commerce_nodejs.Base.Int.{ℤ, pos, ◌+ℤ◌, ◌*ℤ◌, int_laws}
use e_commerce_nodejs.Store.{
  Db, DiscountCode, Ensures, Ensures-kept, Ensures-bind, Ensures-check, Ensures-pure, Ensures-reads,
  Ensures-found, Ensures-knowing, Preserves, preserves_rules,
}
use e_commerce_nodejs.Cart.{CartIdentity, CartLine, sum_lines}
use e_commerce_nodejs.Discount.{
  is_empty, is_item_eligible, line_amount, lines_for_discount, assert_user_eligibility,
  evaluate_discount_code, evaluation, DiscountEvaluationResult,
}
use e_commerce_nodejs.Discount.Laws.{
  IsDiscount, calculate_discount_amount-IsDiscount, IsUsable, find_active_code_or_throw-IsUsable,
}

-- A code applies to an item: it names neither products nor categories, or it names the product of the
-- item, or one of the item's categories.
pub data Applies (d : DiscountCode) (l : CartLine) : Type 0 where
  to_all : d.products ≡ [] → d.categories ≡ [] → Applies d l
  to_product : includes l.product_id d.products ≡ true → Applies d l
  to_category :
      (id : ℕ) → includes id l.category_ids ≡ true → includes id d.categories ≡ true → Applies d l

-- What the items that a code applies to cost: `amount` is the sum of their prices times quantities.
pub data Costs (d : DiscountCode) : List CartLine → ℤ → Type 0 where
  nothing : Costs d [] (pos 0)
  counted :
      {l : CartLine} {ls : List CartLine} {amount : ℤ}
      → Applies d l
      → Costs d ls amount
      → Costs d (l ∷ ls) (l.unit_price *ℤ pos l.quantity +ℤ amount)
  left_out :
      {l : CartLine} {ls : List CartLine} {amount : ℤ}
      → ¬ Applies d l
      → Costs d ls amount
      → Costs d (l ∷ ls) amount

is_empty-true : {A : Type 0} (xs : List A) → is_empty xs ≡ true → xs ≡ []
is_empty-true [] h = refl
is_empty-true (x ∷ xs) h = absurd cc

shared :
    (ids cs : List ℕ)
    → any (λ id. includes id cs) ids ≡ true
    → (id : ℕ) × ((includes id ids ≡ true) × (includes id cs ≡ true))
shared [] cs h = absurd cc
shared (k ∷ ids) cs h = elim (Bool-cases (includes k cs)) [
  | inl here ↦ (k, (rw (eq→== k k refl) refl, here))
  | inr there ↦
      let (id, (among, named)) = shared ids cs (rw there at h) in
      (id, (or_later (k == id) _ among, named))
]

shared-any :
    (id : ℕ) (ids cs : List ℕ)
    → includes id ids ≡ true
    → includes id cs ≡ true
    → any (λ k. includes k cs) ids ≡ true
shared-any id [] cs h named = absurd cc
shared-any id (k ∷ ids) cs h named = elim (Bool-cases (k == id)) [
  | inl here ↦ rw (==→eq k id here, named) refl
  | inr there ↦ or_later _ _ (shared-any id ids cs (rw there at h) named)
]

is_item_eligible-Applies :
    (d : DiscountCode) (l : CartLine) → is_item_eligible d l ≡ true → Applies d l
is_item_eligible-Applies d l h = elim (Bool-cases (is_empty d.products && is_empty d.categories)) [
  | inl open_ ↦
      let (p, c) = and_true (is_empty d.products) (is_empty d.categories) open_ in
      to_all (is_empty-true d.products p) (is_empty-true d.categories c)
  | inr named ↦ elim (Bool-cases (includes l.product_id d.products)) [
    | inl product ↦ to_product product
    | inr no_product ↦
        let (id, (of_item, of_code)) =
          shared l.category_ids d.categories (rw (named, no_product) at h) in
        to_category id of_item of_code
  ]
]

restricted : (b c : Bool) → c ≡ true → (if b then true else c) ≡ true
restricted true c h = refl
restricted false c h = h

Applies-is_item_eligible :
    (d : DiscountCode) (l : CartLine) → Applies d l → is_item_eligible d l ≡ true
Applies-is_item_eligible d l (to_all p c) = rw (p, c) refl
Applies-is_item_eligible d l (to_product h) =
    restricted (is_empty d.products && is_empty d.categories) _ (rw h refl)
Applies-is_item_eligible d l (to_category id h k) =
    restricted (is_empty d.products && is_empty d.categories) _ (
      or_later (includes l.product_id d.products) _ (shared-any id l.category_ids d.categories h k))

not-Applies : (d : DiscountCode) (l : CartLine) → is_item_eligible d l ≡ false → ¬ Applies d l
not-Applies d l h a = not_both _ (Applies-is_item_eligible d l a) h

filter-Costs :
    (d : DiscountCode) (lines : List CartLine)
    → Costs d lines (sum_lines line_amount (filter (is_item_eligible d) lines))
filter-Costs d [] = nothing
filter-Costs d (l ∷ ls) = elim (Bool-cases (is_item_eligible d l)) [
  | inl eligible ↦ rw eligible (counted (is_item_eligible-Applies d l eligible) (filter-Costs d ls))
  | inr other ↦ rw other (left_out (not-Applies d l other) (filter-Costs d ls))
]

-- What is reported of a cart: by a code that can be used, for the lines of the cart, what they cost, what
-- those cost that the code applies to, and a discount within that.
pub record IsEvaluated (start : Db) (code : String) (identity : CartIdentity) (now : ℕ)
    (e : DiscountEvaluationResult) : Type 0 where
  pub d : DiscountCode
  pub lines : List CartLine
  pub usable : IsUsable start code now d
  pub of_code : e.discount_code_id ≡ d.id
  pub of_cart : lines_for_discount identity start ≡ some lines
  pub total : e.cart_total ≡ sum_lines line_amount lines
  pub eligible : Costs d lines e.eligible_subtotal
  pub discount : IsDiscount d e.eligible_subtotal e.discount_amount
  pub adds_up : e.payable_total +ℤ e.discount_amount ≡ e.cart_total

module _ (start : Db) (code : String) (identity : CartIdentity) (now : ℕ) where
  evaluation-IsEvaluated :
      (d : DiscountCode) (lines : List CartLine)
      → IsUsable start code now d
      → lines_for_discount identity start ≡ some lines
      → IsEvaluated start code identity now (evaluation d lines)
  unfolding evaluation
  evaluation-IsEvaluated d lines usable found = record {
    d = d;
    lines = lines;
    usable = usable;
    of_code = refl;
    of_cart = found;
    total = refl;
    eligible = filter-Costs d lines;
    discount = calculate_discount_amount-IsDiscount d _;
    adds_up = omega int_laws;
  }

  assert_user_eligibility-kept :
      (d : DiscountCode) (user_id : Option ℕ)
      → Preserves (λ db. db ≡ start) (assert_user_eligibility d user_id)
  unfolding assert_user_eligibility
  assert_user_eligibility-kept d none = search (preserves_rules)
  assert_user_eligibility-kept d (some user_id) = search (preserves_rules) depth 30

  -- An evaluation that returns is by a code of that name that can be used. It reports the cost of the
  -- cart, the cost of exactly those lines that the code applies to, and a discount that is not negative
  -- and exceeds neither that cost nor the cap of the code; the payable total and the discount add up to
  -- the cost of the cart.
  pub evaluate_discount_code-IsEvaluated :
      Ensures
        (λ db. db ≡ start)
        (evaluate_discount_code code identity now)
        (λ e _. IsEvaluated start code identity now e)
  unfolding evaluate_discount_code
  evaluate_discount_code-IsEvaluated =
      Ensures-bind _ _ (find_active_code_or_throw-IsUsable code now start) (λ d.
        Ensures-knowing _ (λ usable.
          Ensures-bind _ _ (Ensures-kept _ (assert_user_eligibility-kept d _)) (λ _.
            Ensures-reads _ start _ (
              Ensures-found _ _ _ (λ lines found. Ensures-check _ _ _ (λ _.
                Ensures-check _ _ _ (λ _. Ensures-check _ _ _ (λ _.
                  Ensures-pure (evaluation d lines)
                    (λ db h. evaluation-IsEvaluated d lines usable found)))))))))
