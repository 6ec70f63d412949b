-- ===== src/Order/Cancellation/Stock.antt =====
-- What a cancellation does to the stock.
use Prim.Native.String.{String}
use e_commerce_nodejs.Base.{
  ℕ, ◌+◌, ◌≡◌, refl, arith, List, [], ◌∷◌, any, ◌⊎◌, inl, inr, ◌==◌, if◌then◌else◌,
}
use e_commerce_nodejs.Store.{
  Db, Order, Product, OrderItem, Preserves, preserves_rules, frame_rules, Ensures, Ensures-kept,
  Ensures-bind, Ensures-for_each, Returns-map, Returns-all, transaction-either, and_then-Preserves,
  Ensures-transaction, guarded-Returns, Returns, no_row, for_each, ◌>>=◌, ◌>>◌, update_variant,
  transaction, pure,
}
use e_commerce_nodejs.Catalog.Stock.{stock_at, stock_at-add_stock}
use e_commerce_nodejs.Catalog.Frame.{recompute_product_aggregates-Preserves}
use e_commerce_nodejs.Order.Cancellation.{
  restock_item, refund_wallet, refund_wallet_payment, record_gateway_refund, refund_payments,
  cancellation_writes, perform_cancellation, refresh_products,
}

-- The quantity of a variant in the items of an order.
abbrev pub ordered : ℕ → List OrderItem → ℕ
ordered variant_id [] = 0
ordered variant_id (i ∷ is) =
    (if i.variant_id == variant_id then i.quantity else 0) + ordered variant_id is

-- The stock of a variant, with what the items still have to give back, is `total`.
abbrev pub Restocks : (variant_id total : ℕ) → List OrderItem → Db → Type 0
Restocks variant_id total items db =
    stock_at variant_id db.variants + ordered variant_id items ≡ total

restock_item-Restocks :
    (v total : ℕ) (i : OrderItem) (is : List OrderItem)
    → Ensures (Restocks v total (i ∷ is)) (restock_item i) (λ _. Restocks v total is)
unfolding restock_item update_variant
restock_item-Restocks v total i is = record {
  run = λ db h.
      guarded-Returns _ no_row (any (λ w. w.id == i.variant_id) db.variants) _ db
        (λ here. rw (stock_at-add_stock v i.variant_id i.quantity db.variants, here) (omega arith));
}

pub restock-Restocks :
    (v total : ℕ) (items : List OrderItem)
    → Ensures (Restocks v total items) (for_each items restock_item) (λ _. Restocks v total [])
restock-Restocks v total =
    Ensures-for_each (Restocks v total) restock_item (restock_item-Restocks v total)

refund_payments-Restocks :
    (v total : ℕ) (order : Order) → Preserves (Restocks v total []) (refund_payments order)
unfolding refund_payments refund_wallet_payment refund_wallet record_gateway_refund
refund_payments-Restocks v total order = search (preserves_rules, frame_rules) depth 40

cancellation_writes-Restocks :
    (v total : ℕ) (order : Order) (reason : String) (now : ℕ)
    → Ensures
        (Restocks v total order.items)
        (cancellation_writes order reason now)
        (λ _. Restocks v total [])
unfolding cancellation_writes
cancellation_writes-Restocks v total order reason now =
    Ensures-bind _ _ (restock-Restocks v total order.items) (λ _.
      Ensures-kept _ (search (preserves_rules, frame_rules, refund_payments-Restocks) depth 40))

pub refresh_products-Preserves :
    {P : Db → Type 0} (items : List OrderItem)
    → ((db : Db) (rows : List Product) → P db → P (record db { products = rows }))
    → Preserves P (refresh_products items)
unfolding refresh_products
refresh_products-Preserves items frame =
    search (preserves_rules, recompute_product_aggregates-Preserves) depth 30

perform_cancellation-Restocks :
    (v total : ℕ) (order : Order) (reason : String) (now : ℕ)
    → Ensures
        (Restocks v total order.items)
        (perform_cancellation order reason now)
        (λ _. Restocks v total [])
unfolding perform_cancellation
perform_cancellation-Restocks v total order reason now =
    Ensures-bind _ _ (Ensures-transaction _ (cancellation_writes-Restocks v total order reason now))
      (λ _. Ensures-kept _ (search (preserves_rules, refresh_products-Preserves) depth 40))

-- The stock of every variant is that of `start`, and the same with what the items give back.
abbrev pub Untouched : Db → Db → Type 0
Untouched start db = (v : ℕ) → stock_at v db.variants ≡ stock_at v start.variants

abbrev pub Restocked : List OrderItem → Db → Db → Type 0
Restocked items start db =
    (v : ℕ) → stock_at v db.variants ≡ stock_at v start.variants + ordered v items

abbrev Either : List OrderItem → Db → Db → Type 0
Either items start db = Untouched start db ⊎ Restocked items start db

cancellation_writes-Restocked :
    (order : Order) (reason : String) (now : ℕ) (start : Db)
    → Ensures
        (λ db. db ≡ start)
        (cancellation_writes order reason now)
        (λ _. Restocked order.items start)
cancellation_writes-Restocked order reason now start = record {
  run = λ db h.
      Returns-all
        (λ v _ after. stock_at v after.variants ≡ stock_at v start.variants + ordered v order.items)
        (cancellation_writes order reason now db)
        (λ v.
          Returns-map (cancellation_writes order reason now db) (λ a after k. omega arith)
            ((cancellation_writes-Restocks v (stock_at v start.variants + ordered v order.items)
                order reason now).run
              db (rw h refl)));
}

finish-Either :
    (start : Db) (items : List OrderItem) (order : Order)
    → Preserves (Either items start) (refresh_products items >> pure order)
finish-Either start items order = search (preserves_rules, refresh_products-Preserves) depth 30

perform_cancellation-Either :
    (order : Order) (reason : String) (now : ℕ) (db : Db)
    → Either order.items db (perform_cancellation order reason now db).1
unfolding perform_cancellation ◌>>=◌
perform_cancellation-Either order reason now db =
    let committed =
      transaction-either (Either order.items db) (cancellation_writes order reason now)
        (cancellation_writes-Restocked order reason now db) (λ d k. inl (λ v. rw k refl))
        (λ a d k. inr k) db refl in
    and_then-Preserves (Either order.items db)
      (transaction (cancellation_writes order reason now) db) _ committed
      (λ a _. (finish-Either db order.items a).run _ committed)

-- A cancellation is all or nothing on the stock. Where it returns, the stock of every variant has
-- grown by the quantity of it that the order holds. Where it throws, that is so of every variant, or
-- the stock of every variant is what it was.
pub perform_cancellation-restocks :
    (order : Order) (reason : String) (now : ℕ) (db : Db)
    → Returns (λ _. Restocked order.items db) (perform_cancellation order reason now db)
      × (Untouched db (perform_cancellation order reason now db).1
          ⊎ Restocked order.items db (perform_cancellation order reason now db).1)
perform_cancellation-restocks order reason now db = (
  Returns-all
      (λ v _ after. stock_at v after.variants ≡ stock_at v db.variants + ordered v order.items)
      (perform_cancellation order reason now db)
      (λ v.
        Returns-map (perform_cancellation order reason now db) (λ a after h. omega arith)
          ((perform_cancellation-Restocks v (stock_at v db.variants + ordered v order.items) order
              reason now).run
            db refl)),
  perform_cancellation-Either order reason now db,
)
