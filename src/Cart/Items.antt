-- ===== src/Cart/Items.antt =====
-- The operations on the items of a cart: src/services/shopping/cart.service.ts.
use Prim.Native.String.{String}
use e_commerce_nodejs.Base.{
  ℕ, suc, ◌+◌, min, Bool, false, not, ◌&&◌, Option, none, some, List, [], ◌∷◌, filter, find_by, any,
  if_found, ltb, ◌==◌, if◌then◌else◌,
}
use e_commerce_nodejs.Store.{
  Db, Cart, CartItem, Variant, bad_request, not_found, conflict, M, ok, pure, throw_if, or_throw,
  gets, when, for_each, ◌>>=◌, ◌>>◌, no_row, repeated, guarded, update_rows, find_variant,
  find_product,
}
use e_commerce_nodejs.Cart.{
  CartIdentity, of_user, of_guest, CartSummary, find_cart, items_of, get_cart,
}

-- `where: { id }` of a deletion of one item.
unfoldable pub delete_cart_item : ℕ → M (Unit {0})
delete_cart_item id db =
    guarded no_row (any (λ (i : CartItem). i.id == id) db.cart_items)
      (record db { cart_items = filter (λ (i : CartItem). not (i.id == id)) db.cart_items }) db

unfoldable pub set_quantity : ℕ → ℕ → M (Unit {0})
set_quantity id quantity db =
    guarded no_row (any (λ (i : CartItem). i.id == id) db.cart_items)
      (record db {
        cart_items =
            update_rows (λ (i : CartItem). i.id == id) (λ i. record i { quantity = quantity })
              db.cart_items;
      })
      db

-- `cartId_variantId`
abbrev pub is_item : ℕ → ℕ → CartItem → Bool
is_item cart_id variant_id i = i.cart_id == cart_id && i.variant_id == variant_id

unfoldable pub create_cart_item : ℕ → ℕ → ℕ → M (Unit {0})
create_cart_item cart_id variant_id quantity db =
    guarded repeated (not (any (is_item cart_id variant_id) db.cart_items))
      (record db {
        cart_items =
            record {
              id = db.cart_item_seq;
              cart_id = cart_id;
              variant_id = variant_id;
              quantity = quantity;
            }
            ∷ db.cart_items;
        cart_item_seq = suc db.cart_item_seq;
      })
      db

-- `where: { cartId }` of a deletion of every item.
unfoldable pub delete_items_of : ℕ → M (Unit {0})
delete_items_of cart_id db = (
  ok tt,
  record db { cart_items = filter (λ (i : CartItem). not (i.cart_id == cart_id)) db.cart_items },
)

abbrev pub new_cart : CartIdentity → ℕ → Cart
new_cart (of_user user_id) id = record { id = id; user_id = some user_id; guest_token = none }
new_cart (of_guest token) id = record { id = id; user_id = none; guest_token = some token }

unfoldable pub create_cart : CartIdentity → M Cart
create_cart identity db =
    let cart = new_cart identity db.cart_seq in
    (ok cart, record db { carts = cart ∷ db.carts; cart_seq = suc db.cart_seq })

-- The items go with their cart (onDelete: Cascade).
unfoldable pub delete_cart : ℕ → M (Unit {0})
delete_cart id db =
    guarded no_row (any (λ (c : Cart). c.id == id) db.carts)
      (record db {
        carts = filter (λ (c : Cart). not (c.id == id)) db.carts;
        cart_items = filter (λ (i : CartItem). not (i.cart_id == id)) db.cart_items;
      })
      db

unfoldable pub existing_cart : CartIdentity → Option Cart → M Cart
existing_cart identity none = create_cart identity
existing_cart identity (some cart) = pure cart

-- `getOrCreateCart`
unfoldable pub get_or_create_cart : CartIdentity → M Cart
get_or_create_cart identity = do
  existing ← gets (find_cart identity)
  existing_cart identity existing

abbrev pub find_item : ℕ → ℕ → Db → Option CartItem
find_item cart_id variant_id db = find_by (is_item cart_id variant_id) db.cart_items

abbrev pub quantity_of : Option CartItem → ℕ
quantity_of none = 0
quantity_of (some i) = i.quantity

-- The quantity asked for, and the part of it that is in stock.
abbrev pub desired : Option CartItem → ℕ → ℕ
desired existing quantity = quantity_of existing + quantity

unfoldable pub write_item : ℕ → ℕ → Option CartItem → ℕ → M (Unit {0})
write_item cart_id variant_id none quantity = create_cart_item cart_id variant_id quantity
write_item cart_id variant_id (some i) quantity = set_quantity i.id quantity

-- What `addItem` and the merge do with a variant that is for sale: whether the quantity was cut.
unfoldable pub put_item : ℕ → Variant → ℕ → M Bool
put_item cart_id v quantity = do
  existing ← gets (find_item cart_id v.id)
  write_item cart_id v.id existing (min (desired existing quantity) v.stock)
  pure (ltb v.stock (desired existing quantity))

-- `addItem`
unfoldable pub add_item : CartIdentity → ℕ → ℕ → M (CartSummary × Bool)
add_item identity variant_id quantity = do
  v ← or_throw (← gets (find_variant variant_id)) (not_found "variant")
  throw_if (not v.is_active) (not_found "variant")
  product ← or_throw (← gets (find_product v.product_id)) no_row
  throw_if (not product.is_published) (bad_request "product is not for sale")
  throw_if (v.stock == 0) (conflict "out of stock")
  cart ← get_or_create_cart identity
  was_adjusted ← put_item cart.id v quantity
  summary ← get_cart identity
  pure (summary, was_adjusted)

-- An item of the cart with this identity.
abbrev pub find_own_item : CartIdentity → ℕ → Db → Option CartItem
find_own_item identity item_id db =
    if_found (find_cart identity db)
      (λ cart. find_by (λ (i : CartItem). i.id == item_id) (items_of cart db))

-- The last part of `updateItemQuantity`, for a quantity that is not 0.
unfoldable pub change_quantity : CartIdentity → CartItem → ℕ → M (CartSummary × Bool)
change_quantity identity item quantity = do
  v ← or_throw (← gets (find_variant item.variant_id)) no_row
  set_quantity item.id (min quantity v.stock)
  summary ← get_cart identity
  pure (summary, ltb v.stock quantity)

-- `removeItem`
unfoldable pub remove_item : CartIdentity → ℕ → M CartSummary
remove_item identity item_id = do
  item ← or_throw (← gets (find_own_item identity item_id)) (not_found "cart item")
  delete_cart_item item_id
  get_cart identity

unfoldable pub drop_item : CartIdentity → ℕ → M (CartSummary × Bool)
drop_item identity item_id = do
  delete_cart_item item_id
  summary ← get_cart identity
  pure (summary, false)

-- `updateItemQuantity`
unfoldable pub update_item_quantity : CartIdentity → ℕ → ℕ → M (CartSummary × Bool)
update_item_quantity identity item_id quantity = do
  item ← or_throw (← gets (find_own_item identity item_id)) (not_found "cart item")
  if quantity == 0 then drop_item identity item_id else change_quantity identity item quantity

unfoldable pub clear_items : Option Cart → M (Unit {0})
clear_items none = pure tt
clear_items (some cart) = delete_items_of cart.id

-- `clearCart`
unfoldable pub clear_cart : CartIdentity → M CartSummary
clear_cart identity = do cart ← gets (find_cart identity); clear_items cart; get_cart identity

abbrev is_for_sale : Variant → Bool
is_for_sale v = v.is_active && ltb 0 v.stock

-- One guest item of the merge: an item that is not for sale is left out.
unfoldable pub merge_variant : ℕ → ℕ → Option Variant → M (Unit {0})
merge_variant cart_id quantity none = pure tt
merge_variant cart_id quantity (some v) =
    when (is_for_sale v) (put_item cart_id v quantity >> pure tt)

unfoldable pub merge_item : ℕ → CartItem → M (Unit {0})
merge_item cart_id item = do
  v ← gets (find_variant item.variant_id)
  merge_variant cart_id item.quantity v

unfoldable pub merge_items : ℕ → Cart → List CartItem → M (Unit {0})
merge_items user_id guest_cart [] = pure tt
merge_items user_id guest_cart (i ∷ is) = do
  user_cart ← get_or_create_cart (of_user user_id)
  for_each (i ∷ is) (merge_item user_cart.id)
  delete_cart guest_cart.id

unfoldable pub merge_cart : ℕ → Option Cart → M (Unit {0})
merge_cart user_id none = pure tt
merge_cart user_id (some guest_cart) = do
  items ← gets (items_of guest_cart)
  merge_items user_id guest_cart items

-- `mergeGuestCartIntoUser`
unfoldable pub merge_guest_cart_into_user : ℕ → String → M CartSummary
merge_guest_cart_into_user user_id guest_token = do
  guest_cart ← gets (find_cart (of_guest guest_token))
  merge_cart user_id guest_cart
  get_cart (of_user user_id)
