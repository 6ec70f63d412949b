-- ===== src/Catalog/Categories.antt =====
-- The category tree (src/services/catalog/category.service.ts). The columns of texts and images, and the
-- cache of the tree, are left out.
pub mod Walk
pub mod Forest
pub mod Checks
pub mod Moves
pub mod Acyclic
use Prim.Native.String.{String}
use e_commerce_nodejs.Base.{
  ℕ, zero, suc, Bool, true, false, not, ◌&&◌, ◌||◌, Option, none, some, List, [], ◌∷◌, ◌++◌, map,
  filter, any, find_by, includes, length, or_else, is_some, ◌==◌, if◌then◌else◌,
}
use e_commerce_nodejs.Base.Texts.{Text, text_eq}
use e_commerce_nodejs.Catalog.Slugs.{Unicode, slugify, ensure_unique_slug}
use e_commerce_nodejs.Store.{
  ApiError, ok, err, bad_request, not_found, conflict, internal, prisma, Act, Table, pure, gets,
  throw, throw_if, or_throw, when, ◌>>=◌, ◌>>◌, guarded, update_row, delete_many, create_row,
}

pub record Category : Type 0 where
  pub id : ℕ
  pub name : Text
  pub slug : Text
  pub parent_id : Option ℕ
  pub order : ℕ
  pub is_active : Bool

pub record CategoryAttribute : Type 0 where
  pub category_id : ℕ
  pub attribute_id : ℕ

-- The tables that the service reads and writes, newer rows first.
pub record Taxonomy : Type 0 where
  pub categories : List Category
  pub category_seq : ℕ
  pub attributes : List ℕ
  pub category_attributes : List CategoryAttribute

abbrev pub categories : Table Taxonomy Category
categories = record { rows = λ s. s.categories; put = λ rs s. record s { categories = rs } }

abbrev pub category_attributes : Table Taxonomy CategoryAttribute
category_attributes = record {
  rows = λ s. s.category_attributes;
  put = λ rs s. record s { category_attributes = rs };
}

abbrev pub is_category : ℕ → Category → Bool
is_category id c = c.id == id

-- `c.parentId && frontier.includes(c.parentId)`
abbrev pub is_child_of : List ℕ → Category → Bool
is_child_of frontier c = elim c.parent_id [
  | none ↦ false
  | some p ↦ not (p == 0) && includes p frontier
]

abbrev pub children_of : List Category → List ℕ → List ℕ
children_of all frontier = map (λ (c : Category). c.id) (filter (is_child_of frontier) all)

-- The loop of `getDescendantCategoryIds`, for as many rounds as the fuel allows; `none` where more are
-- needed.
unfoldable pub walk : ℕ → List Category → List ℕ → List ℕ → Option (List ℕ)
walk fuel all result [] = some result
walk zero all result (f ∷ fs) = none
walk (suc fuel) all result (f ∷ fs) =
    let children = children_of all (f ∷ fs) in walk fuel all (result ++ children) children

unfoldable pub get_descendant_category_ids : ℕ → ℕ → Bool → Act Taxonomy (List ℕ)
unfolding walk
get_descendant_category_ids fuel category_id include_self = do
  found ← gets (λ s.
      walk fuel s.categories (if include_self then category_id ∷ [] else []) (category_id ∷ []))
  or_throw found (internal "the walk has not ended")

abbrev pub is_slug_taken : Text → Option ℕ → Taxonomy → Bool
is_slug_taken slug exclude_id s =
    elim (find_by (λ (c : Category). text_eq c.slug slug) s.categories) [
      | none ↦ false
      | some c ↦ elim exclude_id [ none ↦ true | some id ↦ not (c.id == id) ]
    ]

unfoldable pub assert_not_descendant : ℕ → ℕ → Option ℕ → Act Taxonomy (Unit {0})
assert_not_descendant fuel parent_id none = pure tt
assert_not_descendant fuel parent_id (some category_id) = do
  throw_if (parent_id == category_id) (bad_request "a category cannot be its own parent")
  ids ← get_descendant_category_ids fuel category_id false
  throw_if (includes parent_id ids) (bad_request "the parent is below the category")

unfoldable pub assert_parent_valid : ℕ → ℕ → Option ℕ → Act Taxonomy (Unit {0})
assert_parent_valid fuel parent_id category_id = do
  known ← gets (λ s. any (is_category parent_id) s.categories)
  throw_if (not known) (bad_request "no such parent")
  assert_not_descendant fuel parent_id category_id

-- `if (input.parentId)`
unfoldable pub check_parent : ℕ → Option ℕ → Option ℕ → Act Taxonomy (Unit {0})
check_parent fuel none category_id = pure tt
check_parent fuel (some parent_id) category_id =
    when (not (parent_id == 0)) (assert_parent_valid fuel parent_id category_id)

-- The foreign key of a parent.
abbrev pub is_known_parent : Option ℕ → Taxonomy → Bool
is_known_parent none s = true
is_known_parent (some p) s = any (is_category p) s.categories

abbrev pub no_foreign_row : ApiError
no_foreign_row = prisma "P2003"

unfoldable pub create_category_row : (ℕ → Category) → Act Taxonomy (Unit {0})
create_category_row make s =
    guarded no_foreign_row (is_known_parent (make s.category_seq).parent_id s)
      (record s {
        categories = make s.category_seq ∷ s.categories;
        category_seq = suc s.category_seq;
      })
      s

pub record CategoryInput : Type 0 where
  pub name : Option Text
  pub slug : Option Text
  pub parent_id : Option ℕ
  pub order : Option ℕ
  pub is_active : Option Bool

-- The slug of the input, or a free one made from the name, in one turn more than there are categories.
unfoldable pub category_slug : Unicode → Text → Option Text → Taxonomy → Option Text
category_slug unicode name none s =
    ensure_unique_slug unicode (suc (length s.categories)) name (λ c. is_slug_taken c none s)
category_slug unicode name (some t) s = some (slugify unicode t)

-- `name` is given.
unfoldable pub create_category : ℕ → Unicode → Text → CategoryInput → Act Taxonomy (Unit {0})
create_category fuel unicode name input = do
  check_parent fuel input.parent_id none
  found ← gets (category_slug unicode name input.slug)
  slug ← or_throw found (internal "the search for a slug has not ended")
  taken ← gets (is_slug_taken slug none)
  throw_if (is_some input.slug && taken) (conflict "the slug is taken")
  create_category_row (λ id. record {
    id = id;
    name = name;
    slug = slug;
    parent_id = input.parent_id;
    order = or_else input.order 0;
    is_active = or_else input.is_active true;
  })

abbrev pub or_old : {A : Type 0} → Option A → Option A → Option A
or_old none old = old
or_old (some a) old = some a

abbrev pub set_category : Unicode → CategoryInput → Category → Category
set_category unicode input c = record c {
  name = or_else input.name c.name;
  slug = elim input.slug [ none ↦ c.slug | some t ↦ slugify unicode t ];
  parent_id = or_old input.parent_id c.parent_id;
  order = or_else input.order c.order;
  is_active = or_else input.is_active c.is_active;
}

unfoldable pub check_slug : Unicode → ℕ → Option Text → Act Taxonomy (Unit {0})
check_slug unicode id none = pure tt
check_slug unicode id (some t) = do
  taken ← gets (is_slug_taken (slugify unicode t) (some id))
  throw_if taken (conflict "the slug is taken")

unfoldable pub update_category_row : ℕ → Option ℕ → (Category → Category) → Act Taxonomy (Unit {0})
update_category_row id parent_id f = do
  known ← gets (is_known_parent parent_id)
  throw_if (not known) no_foreign_row
  update_row categories (is_category id) f

unfoldable pub update_category : ℕ → Unicode → ℕ → CategoryInput → Act Taxonomy (Unit {0})
update_category fuel unicode id input = do
  known ← gets (λ s. any (is_category id) s.categories)
  throw_if (not known) (not_found "category")
  check_parent fuel input.parent_id (some id)
  check_slug unicode id input.slug
  update_category_row id input.parent_id (set_category unicode input)

abbrev pub has_parent : ℕ → Category → Bool
has_parent id c = elim c.parent_id [ none ↦ false | some p ↦ p == id ]

unfoldable pub delete_category : ℕ → Act Taxonomy (Unit {0})
delete_category id = do
  known ← gets (λ s. any (is_category id) s.categories)
  throw_if (not known) (not_found "category")
  has_children ← gets (λ s. any (has_parent id) s.categories)
  throw_if has_children (conflict "the category has subcategories")
  delete_many categories (is_category id)
  delete_many category_attributes (λ a. a.category_id == id)

abbrev pub is_link : ℕ → ℕ → CategoryAttribute → Bool
is_link category_id attribute_id a =
    (a.category_id == category_id) && (a.attribute_id == attribute_id)

unfoldable pub attach_attribute_to_category : ℕ → ℕ → Act Taxonomy (Unit {0})
attach_attribute_to_category category_id attribute_id = do
  known ← gets (λ s. any (is_category category_id) s.categories)
  throw_if (not known) (not_found "category")
  there ← gets (λ s. includes attribute_id s.attributes)
  throw_if (not there) (not_found "attribute")
  linked ← gets (λ s. any (is_link category_id attribute_id) s.category_attributes)
  when (not linked) (
      create_row category_attributes
        record { category_id = category_id; attribute_id = attribute_id })

unfoldable pub detach_attribute_from_category : ℕ → ℕ → Act Taxonomy (Unit {0})
detach_attribute_from_category category_id attribute_id =
    delete_many category_attributes (is_link category_id attribute_id)
