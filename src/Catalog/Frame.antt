-- ===== src/Catalog/Frame.antt =====
-- Recomputing the summary of a product writes the product table only.
use e_commerce_nodejs.Base.{ℕ, List}
use e_commerce_nodejs.Store.{Db, Product, Preserves, preserves_rules, frame_rules}
use e_commerce_nodejs.Catalog.{refresh, recompute_product_aggregates}

module _ {P : Db → Type 0} where
  pub recompute_product_aggregates-Preserves :
      (product_id : ℕ)
      → ((db : Db) (rows : List Product) → P db → P (record db { products = rows }))
      → Preserves P (recompute_product_aggregates product_id)
  unfolding recompute_product_aggregates refresh
  recompute_product_aggregates-Preserves product_id frame =
      search (preserves_rules, frame_rules) depth 30
