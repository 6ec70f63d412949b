-- ===== src/Cart/Limits.antt =====
-- A cart holds no more of a variant than is in stock when it is changed.
use e_commerce_nodejs.Base.{
  ℕ, ◌+◌, ◌≡◌, refl, min, Bool, true, false, not, ◌||◌, or_later, Bool-cases, inl, inr, eq→==,
  Option, none, some, List, [], ◌∷◌, any, find_by, ◌==◌, if◌then◌else◌,
}
use e_commerce_nodejs.Store.{
  Db, CartItem, Variant, Succeeds, guarded-Succeeds, and_then-Succeeds, no_row, repeated,
  update_rows, ◌>>=◌,
}
use e_commerce_nodejs.Cart.Items.{
  quantity_of, is_item, set_quantity, create_cart_item, write_item, put_item, find_item,
}

abbrev with_quantity : ℕ → CartItem → CartItem
with_quantity quantity i = record i { quantity = quantity }

first :
    (cart_id variant_id quantity : ℕ) (i r : CartItem) (rest : Option CartItem)
    → is_item cart_id variant_id r ≡ true
    → some r ≡ some i
    → (let set = if r.id == i.id then with_quantity quantity r else r in
        if is_item cart_id variant_id set then some set else rest)
      ≡ some (with_quantity quantity i)
first cart_id variant_id quantity i r rest found e = rw (eq→== r.id i.id cc, found) cc

later :
    (cart_id variant_id quantity : ℕ) (i r : CartItem) (rest : Option CartItem)
    → is_item cart_id variant_id r ≡ false
    → rest ≡ some (with_quantity quantity i)
    → (let set = if r.id == i.id then with_quantity quantity r else r in
        if is_item cart_id variant_id set then some set else rest)
      ≡ some (with_quantity quantity i)
later cart_id variant_id quantity i r rest other e = elim (Bool-cases (r.id == i.id)) [
  | inl same ↦ rw (same, other) e
  | inr different ↦ rw (different, other) e
]

-- The first row of the variant is the one whose quantity is set.
find_by-set :
    (cart_id variant_id quantity : ℕ) (i : CartItem) (rows : List CartItem)
    → find_by (is_item cart_id variant_id) rows ≡ some i
    → find_by
        (is_item cart_id variant_id)
        (update_rows (λ (j : CartItem). j.id == i.id) (with_quantity quantity) rows)
      ≡ some (with_quantity quantity i)
find_by-set cart_id variant_id quantity i [] e = absurd cc
find_by-set cart_id variant_id quantity i (r ∷ rs) e =
    elim (Bool-cases (is_item cart_id variant_id r)) [
      | inl found ↦ first cart_id variant_id quantity i r _ found (rw found at e)
      | inr other ↦
          later cart_id variant_id quantity i r _ other
            (find_by-set cart_id variant_id quantity i rs (rw other at e))
    ]

some_is_none : (r : CartItem) → some r ≡ none → ⊥
some_is_none r e = absurd cc

find_by-none :
    (p : CartItem → Bool) (rows : List CartItem) → find_by p rows ≡ none → not (any p rows) ≡ true
find_by-none p [] e = refl
find_by-none p (r ∷ rs) e = elim (Bool-cases (p r)) [
  | inl found ↦ absurd (some_is_none r (rw found at e))
  | inr other ↦ rw other (find_by-none p rs (rw other at e))
]

same_id : (r i : CartItem) (rest : Bool) → some r ≡ some i → ((r.id == i.id) || rest) ≡ true
same_id r i rest e = rw (eq→== r.id i.id cc) refl

find_by-id :
    (p : CartItem → Bool) (i : CartItem) (rows : List CartItem)
    → find_by p rows ≡ some i
    → any (λ (j : CartItem). j.id == i.id) rows ≡ true
find_by-id p i [] e = absurd cc
find_by-id p i (r ∷ rs) e = elim (Bool-cases (p r)) [
  | inl found ↦ same_id r i _ (rw found at e)
  | inr other ↦ or_later (r.id == i.id) _ (find_by-id p i rs (rw other at e))
]

abbrev Holds : (cart_id variant_id quantity : ℕ) → Db → Type 0
Holds cart_id variant_id quantity after =
    quantity_of (find_item cart_id variant_id after) ≡ quantity

write_item-sets :
    (cart_id variant_id quantity : ℕ) (existing : Option CartItem) (db : Db)
    → find_item cart_id variant_id db ≡ existing
    → Succeeds
        (λ _. Holds cart_id variant_id quantity)
        (write_item cart_id variant_id existing quantity db)
unfolding write_item create_cart_item set_quantity
write_item-sets cart_id variant_id quantity none db e =
    guarded-Succeeds (λ _. Holds cart_id variant_id quantity) repeated _ _ db
      (find_by-none (is_item cart_id variant_id) db.cart_items e)
      (rw (eq→== cart_id cart_id refl, eq→== variant_id variant_id refl) refl)
write_item-sets cart_id variant_id quantity (some i) db e =
    guarded-Succeeds (λ _. Holds cart_id variant_id quantity) no_row _ _ db
      (find_by-id (is_item cart_id variant_id) i db.cart_items e)
      (rw (find_by-set cart_id variant_id quantity i db.cart_items e) refl)

-- Putting an item into a cart always succeeds, and leaves in it the quantity that was there and the
-- quantity asked for, but never more than the stock of the variant.
pub put_item-quantity :
    (cart_id : ℕ) (v : Variant) (quantity : ℕ) (db : Db)
    → Succeeds
        (λ _ after.
          quantity_of (find_item cart_id v.id after)
          ≡ min (quantity_of (find_item cart_id v.id db) + quantity) v.stock)
        (put_item cart_id v quantity db)
unfolding put_item ◌>>=◌
put_item-quantity cart_id v quantity db =
    let asked = quantity_of (find_item cart_id v.id db) + quantity in
    and_then-Succeeds (λ _. Holds cart_id v.id (min asked v.stock))
      (λ _. Holds cart_id v.id (min asked v.stock))
      (write_item cart_id v.id (find_item cart_id v.id db) (min asked v.stock) db) _
      (write_item-sets cart_id v.id (min asked v.stock) (find_item cart_id v.id db) db refl)
      (λ a after h. h)
