-- ===== src/Catalog/Categories/Acyclic.antt =====
-- The categories stay a forest under every request (src/services/catalog/category.service.ts).
use e_commerce_nodejs.Base.{ℕ, ◌≤◌, ◌<◌, ◌≡◌, arith, Bool, not, some, List, [], ◌∷◌, All}
use e_commerce_nodejs.Base.Texts.{Text}
use e_commerce_nodejs.Catalog.Slugs.{Unicode}
use e_commerce_nodejs.Store.{
  Preserves, preserves_rules, delete_many-Preserves, filter-All, delete_many,
}
use e_commerce_nodejs.Catalog.Categories.{
  Category, CategoryAttribute, Taxonomy, CategoryInput, categories, category_attributes,
  is_category, walk, create_category, update_category, delete_category,
}
use e_commerce_nodejs.Catalog.Categories.Walk.{walk_ends}
use e_commerce_nodejs.Catalog.Categories.Forest.{IsForest}
use e_commerce_nodejs.Catalog.Categories.Checks.{create_category-IsForest}
use e_commerce_nodejs.Catalog.Categories.Moves.{update_category-IsForest}

delete_rows-IsForest : (id : ℕ) → Preserves IsForest (delete_many categories (is_category id))
delete_rows-IsForest id = delete_many-Preserves categories (is_category id) (λ s h. record {
  depth = h.depth;
  deeper = filter-All _ (λ c. not (is_category id c)) s.categories h.deeper;
  fresh = filter-All _ (λ c. not (is_category id c)) s.categories h.fresh;
})

delete_links-IsForest :
    (p : CategoryAttribute → Bool) → Preserves IsForest (delete_many category_attributes p)
delete_links-IsForest p =
    delete_many-Preserves category_attributes p
      (λ s h. record { depth = h.depth; deeper = h.deeper; fresh = h.fresh })

delete_category-IsForest : (id : ℕ) → Preserves IsForest (delete_category id)
unfolding delete_category
delete_category-IsForest id =
    search (preserves_rules, delete_rows-IsForest, delete_links-IsForest) depth 30

-- The requests that change the tree.
pub data CategoryCall : Type 0 where
  call_create : Text → CategoryInput → CategoryCall
  call_update : ℕ → CategoryInput → CategoryCall
  call_delete : ℕ → CategoryCall

unfoldable pub after_category_call : ℕ → Unicode → CategoryCall → Taxonomy → Taxonomy
after_category_call fuel unicode (call_create name input) s =
    (create_category fuel unicode name input s).1
after_category_call fuel unicode (call_update id input) s =
    (update_category fuel unicode id input s).1
after_category_call fuel unicode (call_delete id) s = (delete_category id s).1

unfoldable pub after_category_calls : ℕ → Unicode → List CategoryCall → Taxonomy → Taxonomy
after_category_calls fuel unicode [] s = s
after_category_calls fuel unicode (c ∷ cs) s =
    after_category_calls fuel unicode cs (after_category_call fuel unicode c s)

after_category_call-IsForest :
    (fuel : ℕ) (unicode : Unicode) (c : CategoryCall) (s : Taxonomy)
    → IsForest s
    → IsForest (after_category_call fuel unicode c s)
unfolding after_category_call
after_category_call-IsForest fuel unicode (call_create name input) s h =
    (create_category-IsForest fuel unicode name input).run s h
after_category_call-IsForest fuel unicode (call_update id input) s h =
    (update_category-IsForest fuel unicode id input).run s h
after_category_call-IsForest fuel unicode (call_delete id) s h =
    (delete_category-IsForest id).run s h

-- From a forest, any creations, moves and deletions of categories leave a forest: no category is ever
-- above itself.
pub after_category_calls-IsForest :
    (fuel : ℕ) (unicode : Unicode) (cs : List CategoryCall) (s : Taxonomy)
    → IsForest s
    → IsForest (after_category_calls fuel unicode cs s)
unfolding after_category_calls
after_category_calls-IsForest fuel unicode [] s h = h
after_category_calls-IsForest fuel unicode (c ∷ cs) s h =
    after_category_calls-IsForest fuel unicode cs _
      (after_category_call-IsForest fuel unicode c s h)

-- In a forest, the walk below a category ends after as many rounds as the forest is deep.
pub walk_ends_in_forest :
    (fuel deepest start : ℕ) (s : Taxonomy) (h : IsForest s)
    → All (λ (c : Category). h.depth c.id ≤ deepest) s.categories
    → h.depth start ≤ deepest
    → deepest < fuel
    → (ids : List ℕ) × (walk fuel s.categories [] (start ∷ []) ≡ some ids)
walk_ends_in_forest fuel deepest start s h bound low enough =
    walk_ends s.categories h.depth deepest fuel 0 [] (start ∷ []) h.deeper bound
      ((omega arith, low), tt) (omega arith)
