-- ===== src/Cart/Laws.antt =====
-- What the operations on carts leave alone: everything but the tables of carts and their items.
use Prim.Native.String.{String}
use e_commerce_nodejs.Base.{ℕ, Option, none, some, List, [], ◌∷◌}
use e_commerce_nodejs.Store.{
  Db, Cart, CartItem, Variant, Preserves, Preserves-pure, guarded-Preserves, no_row, repeated,
  preserves_rules,
}
use e_commerce_nodejs.Cart.{CartIdentity, summarize, get_cart}
use e_commerce_nodejs.Cart.Items.{
  delete_cart_item, set_quantity, create_cart_item, delete_items_of, create_cart, delete_cart,
  existing_cart, get_or_create_cart, write_item, put_item, add_item, change_quantity, remove_item,
  drop_item, update_item_quantity, clear_items, clear_cart, merge_variant, merge_item, merge_items,
  merge_cart, merge_guest_cart_into_user,
}

-- Reading a cart writes nothing.
module _ {P : Db → Type 0} where
  summarize-Preserves : (cart : Option Cart) → Preserves P (summarize cart)
  unfolding summarize
  summarize-Preserves none = Preserves-pure _
  summarize-Preserves (some cart) = search preserves_rules depth 20

  pub get_cart-Preserves : (identity : CartIdentity) → Preserves P (get_cart identity)
  unfolding get_cart
  get_cart-Preserves identity = search (preserves_rules, summarize-Preserves) depth 20

-- A predicate that does not look at the carts.
pub record IgnoresCarts (P : Db → Type 0) : Type 0 where
  pub frame :
      (db : Db) (carts : List Cart) (cart_seq : ℕ) (items : List CartItem) (item_seq : ℕ)
      → P db
      → P (record db {
        carts = carts;
        cart_seq = cart_seq;
        cart_items = items;
        cart_item_seq = item_seq;
      })

module _ {P : Db → Type 0} (i : IgnoresCarts P) where
  delete_cart_item-Preserves : (id : ℕ) → Preserves P (delete_cart_item id)
  unfolding delete_cart_item
  delete_cart_item-Preserves id = record {
    run = λ db h. guarded-Preserves P no_row _ _ db (i.frame db _ _ _ _ h) h;
  }

  set_quantity-Preserves : (id quantity : ℕ) → Preserves P (set_quantity id quantity)
  unfolding set_quantity
  set_quantity-Preserves id quantity = record {
    run = λ db h. guarded-Preserves P no_row _ _ db (i.frame db _ _ _ _ h) h;
  }

  create_cart_item-Preserves :
      (cart_id variant_id quantity : ℕ) → Preserves P (create_cart_item cart_id variant_id quantity)
  unfolding create_cart_item
  create_cart_item-Preserves cart_id variant_id quantity = record {
    run = λ db h. guarded-Preserves P repeated _ _ db (i.frame db _ _ _ _ h) h;
  }

  delete_items_of-Preserves : (cart_id : ℕ) → Preserves P (delete_items_of cart_id)
  unfolding delete_items_of
  delete_items_of-Preserves cart_id = record { run = λ db h. i.frame db _ _ _ _ h }

  create_cart-Preserves : (identity : CartIdentity) → Preserves P (create_cart identity)
  unfolding create_cart
  create_cart-Preserves identity = record { run = λ db h. i.frame db _ _ _ _ h }

  delete_cart-Preserves : (id : ℕ) → Preserves P (delete_cart id)
  unfolding delete_cart
  delete_cart-Preserves id = record {
    run = λ db h. guarded-Preserves P no_row _ _ db (i.frame db _ _ _ _ h) h;
  }

  existing_cart-Preserves :
      (identity : CartIdentity) (c : Option Cart) → Preserves P (existing_cart identity c)
  unfolding existing_cart
  existing_cart-Preserves identity none = create_cart-Preserves identity
  existing_cart-Preserves identity (some c) = Preserves-pure c

  write_item-Preserves :
      (cart_id variant_id : ℕ) (item : Option CartItem) (quantity : ℕ)
      → Preserves P (write_item cart_id variant_id item quantity)
  unfolding write_item
  write_item-Preserves cart_id variant_id none quantity =
      create_cart_item-Preserves cart_id variant_id quantity
  write_item-Preserves cart_id variant_id (some item) quantity =
      set_quantity-Preserves item.id quantity

  get_or_create_cart-Preserves :
      (identity : CartIdentity) → Preserves P (get_or_create_cart identity)
  unfolding get_or_create_cart
  get_or_create_cart-Preserves identity = search (preserves_rules, existing_cart-Preserves) depth 20

  put_item-Preserves :
      (cart_id : ℕ) (v : Variant) (quantity : ℕ) → Preserves P (put_item cart_id v quantity)
  unfolding put_item
  put_item-Preserves cart_id v quantity = search (preserves_rules, write_item-Preserves) depth 20

  ruleset item_rules = (
    preserves_rules, delete_cart_item-Preserves, set_quantity-Preserves, delete_items_of-Preserves,
    delete_cart-Preserves, get_or_create_cart-Preserves, put_item-Preserves, get_cart-Preserves,
  )

  pub add_item-Preserves :
      (identity : CartIdentity) (variant_id quantity : ℕ)
      → Preserves P (add_item identity variant_id quantity)
  unfolding add_item
  add_item-Preserves identity variant_id quantity = search item_rules depth 30

  pub remove_item-Preserves :
      (identity : CartIdentity) (item_id : ℕ) → Preserves P (remove_item identity item_id)
  unfolding remove_item
  remove_item-Preserves identity item_id = search item_rules depth 30

  pub update_item_quantity-Preserves :
      (identity : CartIdentity) (item_id quantity : ℕ)
      → Preserves P (update_item_quantity identity item_id quantity)
  unfolding update_item_quantity drop_item change_quantity
  update_item_quantity-Preserves identity item_id quantity = search item_rules depth 40

  clear_items-Preserves : (cart : Option Cart) → Preserves P (clear_items cart)
  unfolding clear_items
  clear_items-Preserves none = Preserves-pure tt
  clear_items-Preserves (some cart) = delete_items_of-Preserves cart.id

  pub clear_cart-Preserves : (identity : CartIdentity) → Preserves P (clear_cart identity)
  unfolding clear_cart
  clear_cart-Preserves identity = search (item_rules, clear_items-Preserves) depth 30

  merge_variant-Preserves :
      (cart_id quantity : ℕ) (v : Option Variant) → Preserves P (merge_variant cart_id quantity v)
  unfolding merge_variant
  merge_variant-Preserves cart_id quantity none = Preserves-pure tt
  merge_variant-Preserves cart_id quantity (some v) = search item_rules depth 30

  merge_items-Preserves :
      (user_id : ℕ) (cart : Cart) (items : List CartItem)
      → Preserves P (merge_items user_id cart items)
  unfolding merge_items merge_item
  merge_items-Preserves user_id cart [] = Preserves-pure tt
  merge_items-Preserves user_id cart (item ∷ items) =
      search (item_rules, merge_variant-Preserves) depth 40

  merge_cart-Preserves : (user_id : ℕ) (cart : Option Cart) → Preserves P (merge_cart user_id cart)
  unfolding merge_cart
  merge_cart-Preserves user_id none = Preserves-pure tt
  merge_cart-Preserves user_id (some cart) = search (item_rules, merge_items-Preserves) depth 30

  pub merge_guest_cart_into_user-Preserves :
      (user_id : ℕ) (token : String) → Preserves P (merge_guest_cart_into_user user_id token)
  unfolding merge_guest_cart_into_user
  merge_guest_cart_into_user-Preserves user_id token =
      search (item_rules, merge_cart-Preserves) depth 30
