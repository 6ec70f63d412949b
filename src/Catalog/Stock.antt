-- ===== src/Catalog/Stock.antt =====
-- The stock of a variant, and what an increment does to it.
use e_commerce_nodejs.Base.{
  ℕ, ◌+◌, ◌-◌, ◌*◌, leb, ◌≡◌, Bool, false, List, [], ◌∷◌, arith, any, Bool-cases, inl, inr, ◌==◌,
  if◌then◌else◌,
}
use e_commerce_nodejs.Store.{Variant, update_rows, count_rows}

-- The stock of the variant with this id, or 0 where there is none.
abbrev pub stock_at : ℕ → List Variant → ℕ
stock_at id [] = 0
stock_at id (v ∷ vs) = if v.id == id then v.stock else stock_at id vs

abbrev pub add_stock : ℕ → Variant → Variant
add_stock quantity v = record v { stock = v.stock + quantity }

abbrev pub remove_stock : ℕ → Variant → Variant
remove_stock quantity v = record v { stock = v.stock - quantity }

-- An increment of `k` reaches the variant `k`, where it exists, and no other.
pub stock_at-add_stock :
    (id k quantity : ℕ) (vs : List Variant)
    → stock_at id (update_rows (λ v. v.id == k) (add_stock quantity) vs)
      ≡ stock_at id vs + (if k == id then (if any (λ v. v.id == k) vs then quantity else 0) else 0)
stock_at-add_stock id k quantity [] = ground arith
stock_at-add_stock id k quantity (v ∷ vs) = ground (arith, stock_at-add_stock id k quantity vs)

-- `where: { id, stock: { gte: quantity } }`
abbrev pub can_spare : ℕ → ℕ → Variant → Bool
can_spare id quantity v = if v.id == id then leb quantity v.stock else false

-- The stock of a variant over the whole table.
abbrev pub units : ℕ → List Variant → ℕ
units id [] = 0
units id (v ∷ vs) = (if v.id == id then v.stock else 0) + units id vs

-- The conditional decrement of a variant takes `quantity` from each row that it counts.
pub units-remove_stock :
    (id k quantity : ℕ) (vs : List Variant)
    → units id (update_rows (can_spare k quantity) (remove_stock quantity) vs)
        + (if k == id then quantity * count_rows (can_spare k quantity) vs else 0)
      ≡ units id vs
units-remove_stock id k quantity [] = ground arith
units-remove_stock id k quantity (v ∷ vs) =
    let ih = units-remove_stock id k quantity vs in
    elim (Bool-cases (v.id == k)) [
      | inr other ↦ rw other (ground (arith, ih))
      | inl same ↦ elim (Bool-cases (leb quantity v.stock)) [
        | inl enough ↦ rw (same, enough) (ground (arith, ih))
        | inr short ↦ rw (same, short) (ground (arith, ih))
      ]
    ]
