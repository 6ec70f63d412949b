-- ===== src/Catalog/Categories/Moves.antt =====
-- A category that moves keeps the forest (updateCategory).
use e_commerce_nodejs.Base.{
  ℕ, suc, ◌+◌, ◌≡◌, refl, sym, ap, ◌∙◌, arith, true, false, not_both, Bool-cases, Option-cases, inl,
  inr, ◌⊎◌, eq→==, ==→eq, Option, none, some, List, ◌∷◌, All, All-map, All-both, any, includes,
  ◌==◌, if◌then◌else◌,
}
use e_commerce_nodejs.Catalog.Slugs.{Unicode}
use e_commerce_nodejs.Store.{
  ok, Preserves, check-then, gets, throw_if, ◌>>=◌, guarded-Preserves, update_row, update_rows,
  update_rows-All,
}
use e_commerce_nodejs.Catalog.Categories.{
  Category, Taxonomy, CategoryInput, is_category, check_parent, is_known_parent, set_category,
  check_slug, update_category_row, update_category,
}
use e_commerce_nodejs.Catalog.Categories.Walk.{IsParent, Deeper, walk_closed}
use e_commerce_nodejs.Catalog.Categories.Forest.{Fresh, IsForest, some-injective, parent-Fresh}
use e_commerce_nodejs.Catalog.Categories.Checks.{
  check_parent-MayTake, check_parent-Preserves, check_slug-Preserves,
}

-- The depth once a category, with all below it, hangs under another one.
abbrev lift : (ℕ → ℕ) → List ℕ → ℕ → ℕ → ℕ
lift depth seen by k = depth k + (if includes k seen then by else 0)

module _ (unicode : Unicode) (id : ℕ) (input : CategoryInput) (rows : List Category) (depth : ℕ → ℕ)
    (deeper : Deeper depth rows) where
  -- A category that takes a parent outside of its own subtree keeps the forest.
  taken-Deeper :
      (p : ℕ) (ids : List ℕ)
      → input.parent_id ≡ some p
      → includes p (id ∷ ids) ≡ false
      → All
          (λ (c : Category).
            (q : ℕ) → IsParent q c → includes q (id ∷ ids) ≡ true → includes c.id (id ∷ ids) ≡ true)
          rows
      → Deeper
          (lift depth (id ∷ ids) (suc (depth p)))
          (update_rows (is_category id) (set_category unicode input) rows)
  taken-Deeper p ids takes outside closed =
      update_rows-All _ (is_category id) (set_category unicode input) rows (
        All-map rows
          (λ c both. (
            (λ own q parent.
                let same = some-injective p q (rw takes at parent.0) in
                let in_ : includes c.id (id ∷ ids) ≡ true =
                  rw (==→eq c.id id own, eq→== id id refl) refl in
                let out : includes q (id ∷ ids) ≡ false =
                  ap (λ (x : ℕ). includes x (id ∷ ids)) (sym same) ∙ outside in
                rw (in_, out) (omega (arith, ap depth same))),
            (λ other q parent.
                let less = both.0 q parent in
                elim (Bool-cases (includes q (id ∷ ids))) [
                  | inl in_ ↦ rw (in_, both.1 q parent in_) (omega (arith, less))
                  | inr out ↦ rw out (omega (arith, less))
                ]),
          ))
          (All-both _ _ rows deeper closed))

  -- A category that keeps its parent, or takes none, keeps the forest.
  kept-Deeper :
      (input.parent_id ≡ none) ⊎ ((p : ℕ) × ((input.parent_id ≡ some p) × ((p == 0) ≡ true)))
      → Deeper depth (update_rows (is_category id) (set_category unicode input) rows)
  kept-Deeper keeps = update_rows-All _ (is_category id) (set_category unicode input) rows (
      All-map rows
        (λ c h. (
          (λ own q parent. elim keeps [
            | inl same ↦ h q ((rw same at parent.0), parent.1)
            | inr (p, (takes, zero_)) ↦ absurd (
                not_both (q == 0) (rw (sym (some-injective p q (rw takes at parent.0))) zero_)
                  parent.1)
          ]),
          (λ other. h),
        ))
        deeper)

updated-Fresh :
    (unicode : Unicode) (id : ℕ) (input : CategoryInput) (s : Taxonomy)
    → is_known_parent input.parent_id s ≡ true
    → Fresh s.category_seq s.categories
    → Fresh s.category_seq (update_rows (is_category id) (set_category unicode input) s.categories)
updated-Fresh unicode id input s known h =
    update_rows-All _ (is_category id) (set_category unicode input) s.categories (
      All-map s.categories
        (λ c k. (
          (λ own. (
            k.0,
            λ p parent. elim (Option-cases input.parent_id) [
              | inl same ↦ k.1 p ((rw same at parent.0), parent.1)
              | inr (q, takes) ↦
                  parent-Fresh s input.parent_id p h known (takes ∙ (rw takes at parent.0))
            ],
          )),
          (λ other. k),
        ))
        h)

module _ (fuel : ℕ) (unicode : Unicode) (id : ℕ) (input : CategoryInput) where
  moved-IsForest :
      (s : Taxonomy) (parent : Option ℕ)
      → input.parent_id ≡ parent
      → is_known_parent input.parent_id s ≡ true
      → (check_parent fuel parent (some id) s).0 ≡ ok tt
      → IsForest s
      → IsForest (record s {
        categories = update_rows (is_category id) (set_category unicode input) s.categories;
      })
  moved-IsForest s none takes known checked h = record {
    depth = h.depth;
    deeper = kept-Deeper unicode id input s.categories h.depth h.deeper (inl takes);
    fresh = updated-Fresh unicode id input s known h.fresh;
  }
  moved-IsForest s (some p) takes known checked h =
      elim (check_parent-MayTake fuel id p s checked) [
        | inl zero_ ↦ record {
          depth = h.depth;
          deeper =
              kept-Deeper unicode id input s.categories h.depth h.deeper (inr (p, (takes, zero_)));
          fresh = updated-Fresh unicode id input s known h.fresh;
        }
        | inr (ids, (ended, outside)) ↦ record {
          depth = lift h.depth (id ∷ ids) (suc (h.depth p));
          deeper =
              taken-Deeper unicode id input s.categories h.depth h.deeper p ids takes outside
                (walk_closed fuel id s.categories ids ended);
          fresh = updated-Fresh unicode id input s known h.fresh;
        }
      ]

  update_category_row-IsForest :
      (s : Taxonomy)
      → (check_parent fuel input.parent_id (some id) s).0 ≡ ok tt
      → IsForest s
      → IsForest (update_category_row id input.parent_id (set_category unicode input) s).1
  unfolding update_category_row gets throw_if update_row ◌>>=◌
  update_category_row-IsForest s checked h = elim (Bool-cases (is_known_parent input.parent_id s)) [
    | inr unknown ↦ rw unknown h
    | inl known ↦ rw known (
        guarded-Preserves IsForest _ (any (is_category id) s.categories) _ s
          (moved-IsForest s _ refl known checked h) h)
  ]

  -- An update that returns or throws leaves a forest a forest, whatever parent it is given.
  pub update_category-IsForest : Preserves IsForest (update_category fuel unicode id input)
  unfolding update_category gets throw_if ◌>>=◌
  update_category-IsForest = record {
    run = λ s h. elim (Bool-cases (any (is_category id) s.categories)) [
      | inr unknown ↦ rw unknown h
      | inl known ↦ rw known (
          check-then IsForest (check_parent fuel input.parent_id (some id)) _ s
            ((check_parent-Preserves {P = λ t. t ≡ s} fuel input.parent_id (some id)).run s refl) h
            (λ checked.
              check-then IsForest (check_slug unicode id input.slug) _ s
                ((check_slug-Preserves {P = λ t. t ≡ s} unicode id input.slug).run s refl) h
                (λ _. update_category_row-IsForest s checked h)))
    ];
  }
