-- ===== src/Store/Tables.antt =====
-- The Prisma statements on a table of any state: a component whose tables no other component reads
-- has a state of its own. `update` on a row that is not there throws P2025, `updateMany` and
-- `deleteMany` change what matches.
use e_commerce_nodejs.Base.{
  ◌≡◌, refl, ap, Bool, true, false, not, ◌||◌, or_later, Bool-cases, inl, inr, Option, none, some,
  List, [], ◌∷◌, find_by, any, All, filter, ◌≤◌, ◌<◌, arith, sym,
}
use e_commerce_nodejs.Store.Monad.{Act, ok}
use e_commerce_nodejs.Store.Statements.{update_rows, count_rows, guarded, guarded-Preserves, no_row}
use e_commerce_nodejs.Store.Invariants.{Preserves}

-- A table of a state: its rows, newest first, and the state with other rows.
pub record Table (S A : Type 0) : Type 0 where
  pub rows : S → List A
  pub put : List A → S → S

module _ {S A : Type 0} (t : Table S A) where
  unfoldable pub update_row : (A → Bool) → (A → A) → Act S (Unit {0})
  update_row p f s = guarded no_row (any p (t.rows s)) (t.put (update_rows p f (t.rows s)) s) s

  unfoldable pub update_many : (A → Bool) → (A → A) → Act S (Unit {0})
  update_many p f s = (ok tt, t.put (update_rows p f (t.rows s)) s)

  unfoldable pub delete_many : (A → Bool) → Act S (Unit {0})
  delete_many p s = (ok tt, t.put (filter (λ r. not (p r)) (t.rows s)) s)

  unfoldable pub create_row : A → Act S (Unit {0})
  create_row r s = (ok tt, t.put (r ∷ t.rows s) s)

  module _ {P : S → Type 0} where
    pub update_row-Preserves :
        (p : A → Bool) (f : A → A)
        → ((s : S) → P s → P (t.put (update_rows p f (t.rows s)) s))
        → Preserves P (update_row p f)
    unfolding update_row
    update_row-Preserves p f frame = record {
      run = λ s h. guarded-Preserves P no_row (any p (t.rows s)) _ s (frame s h) h;
    }

    pub update_many-Preserves :
        (p : A → Bool) (f : A → A)
        → ((s : S) → P s → P (t.put (update_rows p f (t.rows s)) s))
        → Preserves P (update_many p f)
    unfolding update_many
    update_many-Preserves p f frame = record { run = frame }

    pub delete_many-Preserves :
        (p : A → Bool)
        → ((s : S) → P s → P (t.put (filter (λ r. not (p r)) (t.rows s)) s))
        → Preserves P (delete_many p)
    unfolding delete_many
    delete_many-Preserves p frame = record { run = frame }

    pub create_row-Preserves :
        (r : A) → ((s : S) → P s → P (t.put (r ∷ t.rows s) s)) → Preserves P (create_row r)
    unfolding create_row
    create_row-Preserves r frame = record { run = frame }

pub ruleset table_rules =
    (update_row-Preserves, update_many-Preserves, delete_many-Preserves, create_row-Preserves)

module _ {A : Type 0} where
  missed : (x r : A) (q : A → Bool) → q x ≡ false → q r ≡ true → some x ≡ some r → ⊥
  missed x r q miss hit e = cc

  first :
      (x r : A) (q : A → Bool) (rest : Bool) → q r ≡ true → some x ≡ some r → (q x || rest) ≡ true
  first x r q rest h e = let hit : q x ≡ true = cc in rw hit refl

  -- The row that a query finds is the changed one, when the change does not touch the query.
  pub find_by-update :
      (p q : A → Bool) (f : A → A) (r : A) (rows : List A)
      → ((x : A) → p (f x) ≡ p x)
      → find_by p rows ≡ some r
      → q r ≡ true
      → find_by p (update_rows q f rows) ≡ some (f r)
  find_by-update p q f r [] h e qr = absurd cc
  find_by-update p q f r (x ∷ xs) h e qr =
      let rest = find_by-update p q f r xs h in
      elim (Bool-cases (q x)) [
        | inl hit ↦ elim (Bool-cases (p x)) [
          | inl found ↦
              rw (hit, h x, found)
                (ap (λ (y : Option A). elim y [ none ↦ none | some z ↦ some (f z) ])
                  (rw found at e))
          | inr other ↦ rw (hit, h x, other) (rest (rw other at e) qr)
        ]
        | inr miss ↦ elim (Bool-cases (p x)) [
          | inl found ↦ absurd (missed x r q miss qr (rw found at e))
          | inr other ↦ rw (miss, other) (rest (rw other at e) qr)
        ]
      ]

  -- A row that is found satisfies the query.
  pub find_by-holds : (p : A → Bool) (r : A) (rows : List A) → find_by p rows ≡ some r → p r ≡ true
  find_by-holds p r [] e = absurd cc
  find_by-holds p r (x ∷ xs) e = elim (Bool-cases (p x)) [
    | inl found ↦ let same : some x ≡ some r = rw found at e in cc
    | inr other ↦ find_by-holds p r xs (rw other at e)
  ]

  -- What holds of every row holds of the one that is found.
  pub find_by-All :
      (P : A → Type 0) (p : A → Bool) (r : A) (rows : List A)
      → All P rows
      → find_by p rows ≡ some r
      → P r
  find_by-All P p r [] h e = absurd cc
  find_by-All P p r (x ∷ xs) h e = elim (Bool-cases (p x)) [
    | inl found ↦
        let same : some x ≡ some r = rw found at e in let one : x ≡ r = cc in rw (sym one) h.0
    | inr other ↦ find_by-All P p r xs h.1 (rw other at e)
  ]

  -- A table with a row that is found has a row of every test that the row passes.
  pub find_by-any :
      (p q : A → Bool) (r : A) (rows : List A)
      → find_by p rows ≡ some r
      → q r ≡ true
      → any q rows ≡ true
  find_by-any p q r [] e h = absurd cc
  find_by-any p q r (x ∷ xs) e h = elim (Bool-cases (p x)) [
    | inl found ↦ first x r q _ h (rw found at e)
    | inr other ↦ or_later (q x) _ (find_by-any p q r xs (rw other at e) h)
  ]

  pub count_rows-le :
      (p q : A → Bool) (f : A → A) (rows : List A)
      → ((x : A) → p (f x) ≡ false)
      → count_rows p (update_rows q f rows) ≤ count_rows p rows
  count_rows-le p q f [] h = omega arith
  count_rows-le p q f (x ∷ xs) h = ground (arith, h x, count_rows-le p q f xs h)

  -- A change that takes rows out of a query, the one that it finds among them, leaves fewer.
  pub count_rows-dropped :
      (p q : A → Bool) (f : A → A) (r : A) (rows : List A)
      → ((x : A) → p (f x) ≡ false)
      → find_by p rows ≡ some r
      → q r ≡ true
      → count_rows p (update_rows q f rows) < count_rows p rows
  count_rows-dropped p q f r [] h e qr = absurd cc
  count_rows-dropped p q f r (x ∷ xs) h e qr =
      let rest = count_rows-dropped p q f r xs h in
      let le = count_rows-le p q f xs h in
      elim (Bool-cases (p x)) [
        | inl found ↦ elim (Bool-cases (q x)) [
          | inl hit ↦ rw (hit, h x, found) (omega (arith, le))
          | inr miss ↦ absurd (missed x r q miss qr (rw found at e))
        ]
        | inr other ↦ elim (Bool-cases (q x)) [
          | inl hit ↦ rw (hit, h x, other) (rest (rw other at e) qr)
          | inr miss ↦ rw (miss, other) (rest (rw other at e) qr)
        ]
      ]

  -- A change that the query does not see.
  pub count_rows-kept :
      (p q : A → Bool) (f : A → A) (rows : List A)
      → ((x : A) → p (f x) ≡ p x)
      → count_rows p (update_rows q f rows) ≡ count_rows p rows
  count_rows-kept p q f [] h = refl
  count_rows-kept p q f (x ∷ xs) h = ground (arith, h x, count_rows-kept p q f xs h)

  -- What holds of every row, changed or not.
  pub update_rows-All :
      (P : A → Type 0) (q : A → Bool) (f : A → A) (rows : List A)
      → All (λ x. (q x ≡ true → P (f x)) × (q x ≡ false → P x)) rows
      → All P (update_rows q f rows)
  update_rows-All P q f [] h = tt
  update_rows-All P q f (x ∷ xs) h =
      let rest = update_rows-All P q f xs h.1 in
      elim (Bool-cases (q x)) [
        | inl hit ↦ let change = h.0 in rw hit (change.0 hit, rest)
        | inr miss ↦ let keep = h.0 in rw miss (keep.1 miss, rest)
      ]

  pub filter-All :
      (P : A → Type 0) (q : A → Bool) (rows : List A) → All P rows → All P (filter q rows)
  filter-All P q [] h = tt
  filter-All P q (x ∷ xs) h =
      let rest = filter-All P q xs h.1 in
      elim (Bool-cases (q x)) [ inl hit ↦ rw hit (h.0, rest) | inr miss ↦ rw miss rest ]
