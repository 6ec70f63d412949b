-- ===== src/Catalog/Aggregates/Recompute.antt =====
-- recomputeProductAggregates of src/services/catalog/product.service.ts against the variants on sale.
use e_commerce_nodejs.Base.{
  ℕ, ◌≤◌, ◌≡◌, refl, arith, Bool, true, ◌&&◌, Bool-cases, inl, inr, ◌⊎◌, and_true, or_later, eq→==,
  ==→eq, some, OnSome, All, All-both, All-map, List, [], ◌∷◌, any, filter, ltb, ◌==◌, not_both,
}
use e_commerce_nodejs.Base.Int.{ℤ, pos, ◌≤ℤ◌}
use e_commerce_nodejs.Store.{
  Db, Product, Variant, Ensures, Ensures-reads, Ensures-found, guarded-Returns, no_row,
  find_product, when_some, update_product, update_rows,
}
use e_commerce_nodejs.Catalog.{
  lowest, highest, aggregate, variant_price, refresh, recompute_product_aggregates,
}
use e_commerce_nodejs.Catalog.Aggregates.{
  OneOf, OneOf-map, lowest-le, highest-ge, lowest-OneOf, highest-OneOf, filter-All_of, filter-OneOf,
  Priced, prices_of-Priced, Priced-All, Priced-OneOf,
}

-- A variant on sale.
abbrev pub OnSale : ℕ → Variant → Type 0
OnSale product_id v = (v.product_id ≡ product_id) × (v.is_active ≡ true)

abbrev is_on_sale : ℕ → Variant → Bool
is_on_sale product_id v = v.product_id == product_id && v.is_active

is_on_sale-OnSale : (id : ℕ) (v : Variant) → is_on_sale id v ≡ true → OnSale id v
is_on_sale-OnSale id v h =
    let (of_product, active) = and_true (v.product_id == id) v.is_active h in
    (==→eq v.product_id id of_product, active)

OnSale-is_on_sale : (id : ℕ) (v : Variant) → OnSale id v → is_on_sale id v ≡ true
OnSale-is_on_sale id v (e, active) = rw (eq→== v.product_id id e, active) refl

-- The columns of a row fit the variants on sale: the prices lie between the lowest and the highest, each
-- of which is the price of one of them, or is 0 where none is on sale; and the product is in stock
-- exactly where one of them is.
pub record Summarises (product : Product) (variants : List Variant) (row : Product) : Type 0 where
  pub within :
      All
        (λ v.
          OnSale product.id v
          → OnSome (λ q. (row.min_price ≤ℤ q) × (q ≤ℤ row.max_price)) (variant_price product v))
        variants
  pub attained :
      ((row.min_price ≡ pos 0)
        × ((row.max_price ≡ pos 0) × All (λ v. ¬ OnSale product.id v) variants))
      ⊎ (OneOf (λ v. OnSale product.id v × (variant_price product v ≡ some row.min_price)) variants
          × OneOf
              (λ v. OnSale product.id v × (variant_price product v ≡ some row.max_price))
              variants)
  pub stocked : row.is_in_stock ≡ true → OneOf (λ v. OnSale product.id v × (1 ≤ v.stock)) variants
  pub in_stock : OneOf (λ v. OnSale product.id v × (1 ≤ v.stock)) variants → row.is_in_stock ≡ true

any-OneOf : {A : Type 0} (p : A → Bool) (xs : List A) → any p xs ≡ true → OneOf (λ x. p x ≡ true) xs
any-OneOf p [] h = absurd cc
any-OneOf p (x ∷ xs) h = elim (Bool-cases (p x)) [
  | inl here ↦ inl here
  | inr there ↦ inr (any-OneOf p xs (rw there at h))
]

OneOf-any :
    {A : Type 0} (p q : A → Bool) (xs : List A)
    → OneOf (λ x. (p x ≡ true) × (q x ≡ true)) xs
    → any q (filter p xs) ≡ true
OneOf-any p q [] h = absurd h
OneOf-any p q (x ∷ xs) (inl (hit, good)) = rw (hit, good) refl
OneOf-any p q (x ∷ xs) (inr there) = elim (Bool-cases (p x)) [
  | inl hit ↦ rw hit (or_later (q x) _ (OneOf-any p q xs there))
  | inr miss ↦ rw miss (OneOf-any p q xs there)
]

positive : (n : ℕ) → ltb 0 n ≡ true → 1 ≤ n
positive n h = ground arith

is_positive : (n : ℕ) → 1 ≤ n → ltb 0 n ≡ true
is_positive n h = ground arith

module _ (product : Product) (variants : List Variant) where
  abbrev on_sale : List Variant
  on_sale = filter (is_on_sale product.id) variants

  abbrev some_in_stock : Bool
  some_in_stock = any (λ (v : Variant). ltb 0 v.stock) on_sale

  -- What one of the variants on sale has, one of all variants has.
  of_on_sale :
      (P : Variant → Type 0) → OneOf P on_sale → OneOf (λ v. OnSale product.id v × P v) variants
  of_on_sale P h =
      OneOf-map variants (λ v k. (is_on_sale-OnSale product.id v k.0, k.1))
        (filter-OneOf P (is_on_sale product.id) variants h)

  of_all_on_sale :
      (P : Variant → Type 0) → All P on_sale → All (λ v. OnSale product.id v → P v) variants
  of_all_on_sale P h =
      All-map variants (λ v k sale. k (OnSale-is_on_sale product.id v sale))
        (filter-All_of P (is_on_sale product.id) variants h)

  is_stocked : some_in_stock ≡ true → OneOf (λ v. OnSale product.id v × (1 ≤ v.stock)) variants
  is_stocked h =
      of_on_sale (λ v. 1 ≤ v.stock)
        (OneOf-map on_sale (λ v k. positive v.stock k) (any-OneOf (λ v. ltb 0 v.stock) on_sale h))

  stocked_is : OneOf (λ v. OnSale product.id v × (1 ≤ v.stock)) variants → some_in_stock ≡ true
  stocked_is h =
      OneOf-any (is_on_sale product.id) (λ v. ltb 0 v.stock) variants
        (OneOf-map variants (λ v k. (OnSale-is_on_sale product.id v k.0, is_positive v.stock k.1))
          h)

  Priced-none : (vs : List Variant) → Priced product vs [] → All (λ (v : Variant). ⊥) vs
  unfolding Priced
  Priced-none [] h = tt
  Priced-none (v ∷ vs) h = absurd h

  not_one : (P : Variant → Type 0) (vs : List Variant) → All (λ v. ¬ P v) vs → OneOf P vs → ⊥
  not_one P [] h k = k
  not_one P (v ∷ vs) h (inl here) = h.0 here
  not_one P (v ∷ vs) h (inr there) = not_one P vs h.1 there

  aggregate-Summarises :
      (ps : List ℤ) (row : Product)
      → Priced product on_sale ps
      → Summarises product variants (aggregate ps some_in_stock row)
  aggregate-Summarises [] row priced =
      let none_on_sale = of_all_on_sale (λ v. ⊥) (Priced-none on_sale priced) in
      record {
        within = All-map variants (λ v no sale. absurd (no sale)) none_on_sale;
        attained = inl (refl, (refl, none_on_sale));
        stocked = λ h. absurd cc;
        in_stock = λ h.
            absurd (
              not_one (OnSale product.id) variants none_on_sale
                (OneOf-map variants (λ v k. k.0) h));
      }
  aggregate-Summarises (p ∷ ps) row priced = record {
    within = of_all_on_sale _ (
        Priced-All _ product on_sale (p ∷ ps) priced
          (All-both _ _ (p ∷ ps) (lowest-le p ps) (highest-ge p ps)));
    attained = inr (
      of_on_sale _ (Priced-OneOf (lowest p ps) product on_sale (p ∷ ps) priced (lowest-OneOf p ps)),
      of_on_sale _
          (Priced-OneOf (highest p ps) product on_sale (p ∷ ps) priced (highest-OneOf p ps)),
    );
    stocked = is_stocked;
    in_stock = stocked_is;
  }

-- A row, where it is the product's.
abbrev pub HasSummary : Product → List Variant → Product → Type 0
HasSummary product variants row = (row.id == product.id) ≡ true → Summarises product variants row

rows-Summarises :
    (product : Product) (variants : List Variant) (ps : List ℤ)
    → Priced product (on_sale product variants) ps
    → (rows : List Product)
    → All (HasSummary product variants) (
        update_rows
          (λ row. row.id == product.id)
          (aggregate ps (some_in_stock product variants))
          rows)
rows-Summarises product variants ps priced [] = tt
rows-Summarises product variants ps priced (row ∷ rows) =
    let rest = rows-Summarises product variants ps priced rows in
    elim (Bool-cases (row.id == product.id)) [
      | inl own ↦ rw own ((λ _. aggregate-Summarises product variants ps row priced), rest)
      | inr other ↦ rw other ((λ e. absurd (not_both _ e other)), rest)
    ]

-- A recomputation that returns leaves in the row of the product the lowest and the highest price of its
-- variants on sale, each the price of one of them, or 0 where none is on sale; and it marks the product
-- as in stock exactly where one of them is.
pub recompute_product_aggregates-Summarises :
    (product_id : ℕ) (product : Product) (start : Db)
    → find_product product_id start ≡ some product
    → Ensures
        (λ db. db ≡ start)
        (recompute_product_aggregates product_id)
        (λ _ after. All (HasSummary product start.variants) after.products)
unfolding recompute_product_aggregates refresh when_some update_product
recompute_product_aggregates-Summarises product_id product start found = Ensures-reads _ start _ (
    rw found (
      Ensures-reads _ start _ (
        Ensures-found _ _ _ (λ ps priced. record {
          run = λ db h.
              guarded-Returns (λ _ after. All (HasSummary product start.variants) after.products)
                no_row (any (λ (p : Product). p.id == product.id) db.products) _ db
                (λ _.
                  rows-Summarises product start.variants ps (prices_of-Priced product _ ps priced)
                    db.products);
        }))))
