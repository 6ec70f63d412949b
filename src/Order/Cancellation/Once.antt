-- ===== src/Order/Cancellation/Once.antt =====
-- An order is cancelled at most once.
use Prim.Native.String.{String}
use e_commerce_nodejs.Base.{ℕ, ◌≡◌, refl, true, not, eq→==, sym, ap, ◌∙◌, List, ◌∷◌, any, ◌==◌}
use mathlib.Core.Bool.{true≢false}
use e_commerce_nodejs.Store.{
  Db, Order, OrderCancellation, Preserves, preserves_rules, frame_rules, Ensures, Ensures-kept,
  Ensures-bind, Ensures-transaction, guarded-Returns, repeated, M, for_each, ◌>>◌,
  create_cancellation,
}
use e_commerce_nodejs.Order.Cancellation.{
  restock_item, refund_wallet, refund_wallet_payment, record_gateway_refund, refund_payments,
  cancellation_writes, perform_cancellation,
}
use e_commerce_nodejs.Order.Cancellation.Stock.{refresh_products-Preserves}

-- There is a cancellation of the order.
abbrev pub WasCancelled : ℕ → Db → Type 0
WasCancelled order_id db = any (λ d. d.order_id == order_id) db.cancellations ≡ true

has_row :
    (c : OrderCancellation) (cs : List OrderCancellation)
    → any (λ d. d.order_id == c.order_id) (c ∷ cs) ≡ true
has_row c cs = rw (eq→== c.order_id c.order_id refl) refl

create_cancellation-WasCancelled :
    (P : Db → Type 0) (c : OrderCancellation)
    → Ensures P (create_cancellation c) (λ _. WasCancelled c.order_id)
unfolding create_cancellation
create_cancellation-WasCancelled P c = record {
  run = λ db h.
      guarded-Returns (λ _. WasCancelled c.order_id) repeated
        (not (any (λ d. d.order_id == c.order_id) db.cancellations))
        (record db { cancellations = c ∷ db.cancellations }) db
        (λ free. has_row c db.cancellations);
}

-- The unique column refuses a second one.
create_cancellation-refused :
    (c : OrderCancellation) → Ensures (WasCancelled c.order_id) (create_cancellation c) (λ _ _. ⊥)
unfolding create_cancellation
create_cancellation-refused c = record {
  run = λ db h.
      guarded-Returns (λ _ _. ⊥) repeated
        (not (any (λ d. d.order_id == c.order_id) db.cancellations))
        (record db { cancellations = c ∷ db.cancellations }) db
        (λ (free : not (any (λ d. d.order_id == c.order_id) db.cancellations) ≡ true).
          true≢false (sym (free) ∙ ap not h));
}

trivial : {A : Type 0} (m : M A) → Ensures (λ _. Unit {0}) m (λ _ _. Unit {0})
trivial m = Ensures-kept m (record { run = λ db h. tt })

nothing : {A : Type 0} (m : M A) (Q : A → Db → Type 0) → Ensures (λ _. ⊥) m Q
nothing m Q = record { run = λ db h. absurd h }

ruleset rules = (preserves_rules, frame_rules, refresh_products-Preserves)

module _ (order : Order) (reason : String) (now : ℕ) where
  refunds-WasCancelled : Preserves (WasCancelled order.id) (refund_payments order)
  unfolding refund_payments refund_wallet_payment refund_wallet record_gateway_refund
  refunds-WasCancelled = search rules depth 40

  restock-WasCancelled : Preserves (WasCancelled order.id) (for_each order.items restock_item)
  unfolding restock_item
  restock-WasCancelled = search rules depth 40

  cancellation_writes-WasCancelled :
      Ensures (λ _. Unit {0}) (cancellation_writes order reason now) (λ _. WasCancelled order.id)
  unfolding cancellation_writes
  cancellation_writes-WasCancelled = Ensures-bind _ _ (trivial _) (λ _.
      Ensures-bind _ _ (trivial _) (λ _.
        Ensures-bind _ _ (create_cancellation-WasCancelled _ _)
          (λ _. Ensures-kept _ (search rules depth 40))))

  cancellation_writes-refused :
      Ensures (WasCancelled order.id) (cancellation_writes order reason now) (λ _ _. ⊥)
  unfolding cancellation_writes
  cancellation_writes-refused = Ensures-bind _ _ (Ensures-kept _ restock-WasCancelled) (λ _.
      Ensures-bind _ _ (Ensures-kept _ (search (rules, refunds-WasCancelled) depth 40))
        (λ _. Ensures-bind _ _ (create_cancellation-refused _) (λ _. nothing _ _)))

  pub perform_cancellation-WasCancelled :
      Ensures (λ _. Unit {0}) (perform_cancellation order reason now) (λ _. WasCancelled order.id)
  unfolding perform_cancellation
  perform_cancellation-WasCancelled =
      Ensures-bind _ _ (Ensures-transaction _ cancellation_writes-WasCancelled)
        (λ _. Ensures-kept _ (search rules depth 40))

  pub perform_cancellation-refused :
      Ensures (WasCancelled order.id) (perform_cancellation order reason now) (λ _ _. ⊥)
  unfolding perform_cancellation
  perform_cancellation-refused =
      Ensures-bind _ _ (Ensures-transaction _ cancellation_writes-refused) (λ _. nothing _ _)

-- An order is cancelled at most once: after a cancellation that returns, with whatever reason and at
-- whatever time, another cancellation of the order throws.
pub perform_cancellation-once :
    (order : Order) (reason again : String) (now later : ℕ)
    → Ensures
        (λ _. Unit {0})
        (perform_cancellation order reason now >> perform_cancellation order again later)
        (λ _ _. ⊥)
perform_cancellation-once order reason again now later =
    Ensures-bind _ _ (perform_cancellation-WasCancelled order reason now)
      (λ _. perform_cancellation-refused order again later)
