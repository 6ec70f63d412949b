-- ===== src/Order/Create/Stock.antt =====
-- What a new order takes from the stock.
use e_commerce_nodejs.Base.{
  ℕ, ◌+◌, ◌*◌, ◌≡◌, refl, arith, true, not, List, [], ◌∷◌, ==→eq, not-false, ◌==◌, if◌then◌else◌,
}
use e_commerce_nodejs.Store.{
  Db, DiscountCodeUsage, Preserves, preserves_rules, frame_rules, guarded-Preserves, no_row,
  Ensures, Ensures-kept, Ensures-bind, Ensures-for_each, Ensures-transaction, Returns, Returns-map,
  for_each, update_variants, throw_if-Returns,
}
use e_commerce_nodejs.Catalog.Stock.{units, can_spare, remove_stock, units-remove_stock}
use e_commerce_nodejs.Catalog.Frame.{recompute_product_aggregates-Preserves}
use e_commerce_nodejs.Cart.{CartLine}
use e_commerce_nodejs.Discount.{create_usage, count_usage, record_discount_code_usage}
use e_commerce_nodejs.Order.Create.{
  Draft, take_stock, pay_from_wallet, await_gateway, use_code, empty_cart_of, order_writes,
  place_order,
}

-- The quantity of a variant in the lines of a cart.
abbrev pub wanted : ℕ → List CartLine → ℕ
wanted variant_id [] = 0
wanted variant_id (l ∷ ls) =
    (if l.variant_id == variant_id then l.quantity else 0) + wanted variant_id ls

-- Of `all` units that the lines of a cart take from `total`, those of `lines` are not taken yet.
abbrev pub Takes : (variant_id total all : ℕ) → List CartLine → Db → Type 0
Takes variant_id total all lines db =
    units variant_id db.variants + all ≡ total + wanted variant_id lines

abbrev Counted : (v total all : ℕ) → CartLine → List CartLine → ℕ → Db → Type 0
Counted v total all l ls count db =
    units v db.variants + (if l.variant_id == v then l.quantity * count else 0) + all
    ≡ total + wanted v (l ∷ ls)

count-Takes :
    (v total all : ℕ) (l : CartLine) (ls : List CartLine)
    → Ensures
        (Takes v total all (l ∷ ls))
        (update_variants (can_spare l.variant_id l.quantity) (remove_stock l.quantity))
        (Counted v total all l ls)
unfolding update_variants
count-Takes v total all l ls = record {
  run = λ db h. omega (arith, units-remove_stock v l.variant_id l.quantity db.variants);
}

check-Takes :
    (v total all : ℕ) (l : CartLine) (ls : List CartLine) (count : ℕ) (db : Db)
    → (count == 1) ≡ true
    → Counted v total all l ls count db
    → Takes v total all ls db
check-Takes v total all l ls count db e h = ground (arith, ==→eq count 1 e)

take_stock-Takes :
    (v total all : ℕ) (l : CartLine) (ls : List CartLine)
    → Ensures (Takes v total all (l ∷ ls)) (take_stock l) (λ _. Takes v total all ls)
unfolding take_stock
take_stock-Takes v total all l ls = Ensures-bind _ _ (count-Takes v total all l ls) (λ count.
    record {
      run = λ db h.
          throw_if-Returns _ _ (not (count == 1)) db
            (λ e. check-Takes v total all l ls count db (not-false (count == 1) e) h);
    })

take_all-Takes :
    (v total all : ℕ) (lines : List CartLine)
    → Ensures (Takes v total all lines) (for_each lines take_stock) (λ _. Takes v total all [])
take_all-Takes v total all =
    Ensures-for_each (Takes v total all) take_stock (take_stock-Takes v total all)

module _ (v total all : ℕ) where
  create_usage-Takes : (u : DiscountCodeUsage) → Preserves (Takes v total all []) (create_usage u)
  unfolding create_usage
  create_usage-Takes u = record { run = λ db h. h }

  count_usage-Takes : (id : ℕ) → Preserves (Takes v total all []) (count_usage id)
  unfolding count_usage
  count_usage-Takes id = record {
    run = λ db h. guarded-Preserves (Takes v total all []) no_row _ _ db h h;
  }

  empty_cart_of-Takes : (user_id : ℕ) → Preserves (Takes v total all []) (empty_cart_of user_id)
  unfolding empty_cart_of
  empty_cart_of-Takes user_id = record { run = λ db h. h }

  ruleset rules = (
    preserves_rules, frame_rules, create_usage-Takes, count_usage-Takes, empty_cart_of-Takes,
    recompute_product_aggregates-Preserves,
  )

  order_writes-Takes :
      (d : Draft) (now : ℕ)
      → Ensures (Takes v total all d.cart.items) (order_writes d now) (λ _. Takes v total all [])
  unfolding order_writes pay_from_wallet await_gateway use_code record_discount_code_usage
  order_writes-Takes d now =
      Ensures-bind _ _ (take_all-Takes v total all d.cart.items)
        (λ _. Ensures-kept _ (search rules depth 50))

  place_order-Takes :
      (d : Draft) (now : ℕ)
      → Ensures (Takes v total all d.cart.items) (place_order d now) (λ _. Takes v total all [])
  unfolding place_order
  place_order-Takes d now =
      Ensures-bind _ _ (Ensures-transaction _ (order_writes-Takes d now))
        (λ _. Ensures-kept _ (search rules depth 40))

-- An order that is placed has taken exactly what its cart holds of each variant: the stock that is
-- left and the quantity in the cart add up to the stock before, so that never more is sold than
-- there is.
pub place_order-takes :
    (v : ℕ) (d : Draft) (now : ℕ) (db : Db)
    → Returns
        (λ _ after. units v after.variants + wanted v d.cart.items ≡ units v db.variants)
        (place_order d now db)
place_order-takes v d now db =
    Returns-map (place_order d now db) (λ a after k. omega arith)
      ((place_order-Takes v (units v db.variants) (wanted v d.cart.items) d now).run db refl)
