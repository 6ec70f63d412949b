-- ===== src/Cart/Totals.antt =====
-- The totals of a cart summary.
use e_commerce_nodejs.Base.{
  ℕ, ◌+◌, ◌*◌, ◌≡◌, refl, arith, ap, OnSome, if_found-OnSome, if_found-OnSome_of, sym, Option, none,
  some, List, [], ◌∷◌, All,
}
use e_commerce_nodejs.Base.Int.{
  ℤ, pos, pos_part, neg_part, ◌+ℤ◌, ◌-ℤ◌, ◌*ℤ◌, -ℤ_parts, +ℤ_parts, eq_of_parts, int_laws,
}
use e_commerce_nodejs.Store.{
  Db, Cart, CartItem, Ensures, Ensures-bind, Ensures-known, Ensures-pure, Ensures-gets,
  Ensures-or_throw, find_variant, find_product,
}
use e_commerce_nodejs.Cart.{
  CartIdentity, CartSummary, items_of, summarize, get_cart, CartLine, sum_lines, summary_of,
  effective_price, line, priced_line, joined_line, cons_line, line_of, lines_of,
}

times-ℕ :
    (a : ℤ) (n : ℕ)
    → pos_part (a *ℤ pos n) + neg_part a * n ≡ neg_part (a *ℤ pos n) + pos_part a * n
unfolding ◌*ℤ◌
times-ℕ a n = ground arith

-- `(a - b) * n = a * n - b * n`
pub -ℤ-times : (a b : ℤ) (n : ℕ) → (a -ℤ b) *ℤ pos n +ℤ b *ℤ pos n ≡ a *ℤ pos n
-ℤ-times a b n = eq_of_parts _ _ (
    omega (
      arith,
      +ℤ_parts ((a -ℤ b) *ℤ pos n) (b *ℤ pos n),
      times-ℕ (a -ℤ b) n,
      times-ℕ a n,
      times-ℕ b n,
      ap (λ (k : ℕ). k * n) (-ℤ_parts a b),
    ))

-- The total of a line is its unit price times its quantity.
abbrev pub IsLine : CartLine → Type 0
IsLine l = l.line_total ≡ l.unit_price *ℤ pos l.quantity

pub sum_lines-adds_up :
    (lines : List CartLine)
    → All IsLine lines
    → sum_lines (λ l. (l.original_price -ℤ l.unit_price) *ℤ pos l.quantity) lines
        +ℤ sum_lines (λ l. l.line_total) lines
      ≡ sum_lines (λ l. l.original_price *ℤ pos l.quantity) lines
sum_lines-adds_up [] h = omega int_laws
sum_lines-adds_up (l ∷ ls) h =
    rw
      (sym (sum_lines-adds_up ls h.1), h.0, sym (-ℤ-times l.original_price l.unit_price l.quantity))
      (omega int_laws)

line_of-IsLine : (db : Db) (item : CartItem) → OnSome IsLine (line_of db item)
unfolding line_of
line_of-IsLine db item =
    if_found-OnSome IsLine (find_variant item.variant_id db) (joined_line db item) (λ v.
      if_found-OnSome IsLine (find_product v.product_id db) (priced_line item v) (λ product.
        if_found-OnSome IsLine (effective_price product v)
          (λ price. some (line item v product price)) (λ price. refl)))

lines_of-IsLine : (db : Db) (items : List CartItem) → OnSome (All IsLine) (lines_of db items)
unfolding lines_of
lines_of-IsLine db [] = tt
lines_of-IsLine db (i ∷ is) =
    if_found-OnSome_of IsLine (All IsLine) (line_of db i) (cons_line (lines_of db is))
      (line_of-IsLine db i)
      (λ l hl.
        if_found-OnSome_of (All IsLine) (All IsLine) (lines_of db is) (λ ls. some (l ∷ ls))
          (lines_of-IsLine db is) (λ ls hls. (hl, hls)))

abbrev pub AddsUp : CartSummary → Type 0
AddsUp s = s.total_discount +ℤ s.total ≡ s.subtotal

summary_of-AddsUp :
    (id : Option ℕ) (lines : List CartLine) → All IsLine lines → AddsUp (summary_of id lines)
unfolding summary_of
summary_of-AddsUp id lines h = sum_lines-adds_up lines h

summarize-AddsUp : (cart : Option Cart) → Ensures (λ _. Unit {0}) (summarize cart) (λ s _. AddsUp s)
unfolding summarize
summarize-AddsUp none = Ensures-pure _ (λ db h. summary_of-AddsUp none [] tt)
summarize-AddsUp (some cart) =
    Ensures-known (OnSome (All IsLine)) _ _
      (Ensures-gets (OnSome (All IsLine)) _ (λ db. lines_of-IsLine db (items_of cart db)))
      (λ o ho.
        Ensures-known (All IsLine) _ _ (Ensures-or_throw (All IsLine) o _ ho)
          (λ lines h. Ensures-pure _ (λ db _. summary_of-AddsUp (some cart.id) lines h)))

-- In the summary of any cart, whatever discounts its products have, the discount and the total add
-- up to the subtotal.
pub get_cart-AddsUp :
    (identity : CartIdentity) → Ensures (λ _. Unit {0}) (get_cart identity) (λ s _. AddsUp s)
unfolding get_cart
get_cart-AddsUp identity =
    Ensures-bind _ _ (Ensures-gets (λ _. Unit {0}) _ (λ db. tt)) (λ cart. summarize-AddsUp cart)
