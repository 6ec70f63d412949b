-- ===== src/Catalog/Categories/Checks.antt =====
-- What the checks of a category service let through (assertParentValid, isSlugTaken).
use e_commerce_nodejs.Base.{
  ℕ, ◌≡◌, Bool, true, false, Bool-cases, Option-cases, inl, inr, ◌⊎◌, ==-flip, Option, none, some,
  List, [], ◌∷◌, any, includes, ◌==◌,
}
use e_commerce_nodejs.Base.Texts.{Text}
use e_commerce_nodejs.Catalog.Slugs.{Unicode}
use e_commerce_nodejs.Store.{
  ApiError, ok, err, Preserves, preserves_rules, pure, gets, throw_if, or_throw, when, ◌>>=◌,
}
use e_commerce_nodejs.Catalog.Categories.{
  Taxonomy, CategoryInput, is_category, walk, get_descendant_category_ids, assert_not_descendant,
  assert_parent_valid, check_parent, create_category, check_slug,
}
use e_commerce_nodejs.Catalog.Categories.Forest.{IsForest, create_category_row-IsForest}

-- The checks write nothing, and so keep whatever holds.
module _ {P : Taxonomy → Type 0} (fuel : ℕ) where
  get_descendant_category_ids-Preserves :
      (id : ℕ) (include_self : Bool)
      → Preserves P (get_descendant_category_ids fuel id include_self)
  unfolding get_descendant_category_ids
  get_descendant_category_ids-Preserves id include_self = search (preserves_rules) depth 30

  assert_not_descendant-Preserves :
      (parent_id : ℕ) (id : Option ℕ) → Preserves P (assert_not_descendant fuel parent_id id)
  unfolding assert_not_descendant
  assert_not_descendant-Preserves parent_id none = search (preserves_rules)
  assert_not_descendant-Preserves parent_id (some id) =
      search (preserves_rules, get_descendant_category_ids-Preserves) depth 30

  pub check_parent-Preserves :
      (parent_id id : Option ℕ) → Preserves P (check_parent fuel parent_id id)
  unfolding check_parent assert_parent_valid
  check_parent-Preserves none id = search (preserves_rules)
  check_parent-Preserves (some parent_id) id =
      search (preserves_rules, assert_not_descendant-Preserves) depth 30

pub check_slug-Preserves :
    {P : Taxonomy → Type 0} (unicode : Unicode) (id : ℕ) (slug : Option Text)
    → Preserves P (check_slug unicode id slug)
unfolding check_slug
check_slug-Preserves unicode id none = search (preserves_rules)
check_slug-Preserves unicode id (some t) = search (preserves_rules) depth 30

pub create_category-IsForest :
    (fuel : ℕ) (unicode : Unicode) (name : Text) (input : CategoryInput)
    → Preserves IsForest (create_category fuel unicode name input)
unfolding create_category
create_category-IsForest fuel unicode name input =
    search (preserves_rules, check_parent-Preserves, create_category_row-IsForest) depth 40

-- A parent that a category may take: none, or one that is neither the category nor below it.
abbrev pub MayTake : ℕ → ℕ → ℕ → Taxonomy → Type 0
MayTake fuel id p s =
    ((p == 0) ≡ true)
    ⊎ ((ids : List ℕ) × ((walk fuel s.categories [] (id ∷ []) ≡ some ids)
          × (includes p (id ∷ ids) ≡ false)))

thrown : {A : Type 0} {e : ApiError} {a : A} → err e ≡ ok a → ⊥
thrown h = absurd cc

pub check_parent-MayTake :
    (fuel id p : ℕ) (s : Taxonomy)
    → (check_parent fuel (some p) (some id) s).0 ≡ ok tt
    → MayTake fuel id p s
unfolding check_parent assert_parent_valid assert_not_descendant get_descendant_category_ids gets
    throw_if or_throw when pure ◌>>=◌
check_parent-MayTake fuel id p s h = elim (Bool-cases (p == 0)) [
  | inl zero_ ↦ inl zero_
  | inr nonzero ↦ elim (Bool-cases (any (is_category p) s.categories)) [
    | inr unknown ↦ absurd (thrown (rw (nonzero, unknown) at h))
    | inl known ↦ elim (Bool-cases (p == id)) [
      | inl own ↦ absurd (thrown (rw (nonzero, known, own) at h))
      | inr other ↦ elim (Option-cases (walk fuel s.categories [] (id ∷ []))) [
        | inl more ↦ absurd (thrown (rw (nonzero, known, other, more) at h))
        | inr (ids, ended) ↦ elim (Bool-cases (includes p ids)) [
          | inl under ↦ absurd (thrown (rw (nonzero, known, other, ended, under) at h))
          | inr free ↦ inr (ids, (ended, rw (==-flip id p, other) free))
        ]
      ]
    ]
  ]
]
