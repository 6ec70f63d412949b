-- ===== src/Catalog/Categories/Forest.antt =====
-- The categories as a forest, and a new category (createCategory of
-- src/services/catalog/category.service.ts).
use e_commerce_nodejs.Base.{
  ℕ, suc, ◌<◌, ◌≡◌, refl, arith, true, false, not_both, Bool-cases, inl, inr, eq→==, ==→eq, Option,
  none, some, List, [], ◌∷◌, All, All-map, All-both, any, ◌==◌, if◌then◌else◌,
}
use e_commerce_nodejs.Store.{Preserves}
use e_commerce_nodejs.Catalog.Categories.{
  Category, Taxonomy, is_category, is_known_parent, create_category_row,
}
use e_commerce_nodejs.Catalog.Categories.Walk.{IsParent, Deeper}

-- The ids, and the parents, are below the next id.
abbrev pub Fresh : ℕ → List Category → Type 0
Fresh next rows = All (λ (c : Category). (c.id < next) × ((p : ℕ) → IsParent p c → p < next)) rows

-- No category is above itself: there is a depth that grows from each parent to its children.
pub record IsForest (s : Taxonomy) : Type 0 where
  pub depth : ℕ → ℕ
  pub deeper : Deeper depth s.categories
  pub fresh : Fresh s.category_seq s.categories

known-Fresh :
    (p next : ℕ) (rows : List Category)
    → Fresh next rows
    → any (is_category p) rows ≡ true
    → p < next
known-Fresh p next [] h k = absurd (not_both false k refl)
known-Fresh p next (c ∷ cs) h k = elim (Bool-cases (c.id == p)) [
  | inl same ↦ let low = h.0 in omega (arith, low.0, ==→eq c.id p same)
  | inr other ↦ known-Fresh p next cs h.1 (rw other at k)
]

pub some-injective : (a b : ℕ) → some a ≡ some b → a ≡ b
some-injective a b h = cc

-- A parent that the foreign key lets in is an id in use.
pub parent-Fresh :
    (s : Taxonomy) (parent : Option ℕ) (p : ℕ)
    → Fresh s.category_seq s.categories
    → is_known_parent parent s ≡ true
    → parent ≡ some p
    → p < s.category_seq
parent-Fresh s none p h k e = absurd cc
parent-Fresh s (some q) p h k e =
    known-Fresh p s.category_seq s.categories h (rw (some-injective q p e) at k)

-- A new category is below its parent.
abbrev below : (ℕ → ℕ) → ℕ → Option ℕ → ℕ → ℕ
below depth new parent k =
    if k == new then (elim parent [ none ↦ 0 | some p ↦ suc (depth p) ]) else depth k

below_new :
    (depth : ℕ → ℕ) (new : ℕ) (parent : Option ℕ) (p : ℕ)
    → p < new
    → parent ≡ some p
    → below depth new parent p < below depth new parent new
below_new depth new parent p low e =
    let off : (p == new) ≡ false = ground arith in rw (e, off, eq→== new new refl) (omega arith)

below_old :
    (depth : ℕ → ℕ) (new : ℕ) (parent : Option ℕ) (rows : List Category)
    → Deeper depth rows
    → Fresh new rows
    → Deeper (below depth new parent) rows
below_old depth new parent rows h k =
    All-map rows
      (λ c both p is_parent.
        let less = both.0 p is_parent in
        let fresh = both.1 in
        let low = fresh.1 p is_parent in
        let off : (p == new) ≡ false = ground (arith, low) in
        let off_child : (c.id == new) ≡ false = ground (arith, fresh.0) in rw (off, off_child) less)
      (All-both _ _ rows h k)

created-IsForest :
    (s : Taxonomy) (c : Category)
    → c.id ≡ s.category_seq
    → is_known_parent c.parent_id s ≡ true
    → IsForest s
    → IsForest (record s { categories = c ∷ s.categories; category_seq = suc s.category_seq })
created-IsForest s c e known h = record {
  depth = below h.depth s.category_seq c.parent_id;
  deeper = (
    (λ p parent. rw e (
        below_new h.depth s.category_seq c.parent_id p
          (parent-Fresh s c.parent_id p h.fresh known parent.0) parent.0)),
    below_old h.depth s.category_seq c.parent_id s.categories h.deeper h.fresh,
  );
  fresh = (
    (
      omega (arith, e),
      λ p parent.
          let low = parent-Fresh s c.parent_id p h.fresh known parent.0 in omega (arith, low),
    ),
    All-map s.categories
        (λ d k. (omega (arith, k.0), λ p parent. let low = k.1 p parent in omega (arith, low)))
        h.fresh,
  );
}

pub create_category_row-IsForest :
    (make : ℕ → Category)
    → ((n : ℕ) → (make n).id ≡ n)
    → Preserves IsForest (create_category_row make)
unfolding create_category_row
create_category_row-IsForest make named = record {
  run = λ s h. elim (Bool-cases (is_known_parent (make s.category_seq).parent_id s)) [
    | inl known ↦ rw known (created-IsForest s (make s.category_seq) (named s.category_seq) known h)
    | inr unknown ↦ rw unknown h
  ];
}
