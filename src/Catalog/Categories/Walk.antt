-- ===== src/Catalog/Categories/Walk.antt =====
-- The walk below a category ends, and misses nothing (getDescendantCategoryIds).
use e_commerce_nodejs.Base.{
  ℕ, zero, suc, ◌+◌, ◌≤◌, ◌<◌, ◌≡◌, refl, arith, Bool, true, false, not, ◌||◌, and_true, or_later,
  not_both, not-true, Bool-cases, inl, inr, ◌⊎◌, eq→==, ==→eq, Option, none, some, List, [], ◌∷◌,
  ◌++◌, All, All-map, All-both, includes, ◌==◌,
}
use e_commerce_nodejs.Catalog.Categories.{Category, is_child_of, children_of, walk}

-- `p` is the parent of a category, where 0 is none.
abbrev pub IsParent : ℕ → Category → Type 0
IsParent p c = (c.parent_id ≡ some p) × ((p == 0) ≡ false)

-- Every category is deeper than its parent.
abbrev pub Deeper : (ℕ → ℕ) → List Category → Type 0
Deeper depth all = All (λ (c : Category). (p : ℕ) → IsParent p c → depth p < depth c.id) all

includes-append :
    (k : ℕ) (xs ys : List ℕ) → includes k (xs ++ ys) ≡ (includes k xs || includes k ys)
includes-append k [] ys = refl
includes-append k (x ∷ xs) ys = elim (Bool-cases (x == k)) [
  | inl same ↦ rw same refl
  | inr other ↦ rw other (includes-append k xs ys)
]

includes-All : (P : ℕ → Type 0) (k : ℕ) (xs : List ℕ) → All P xs → includes k xs ≡ true → P k
includes-All P k [] h e = absurd (not_both false e refl)
includes-All P k (x ∷ xs) h e = elim (Bool-cases (x == k)) [
  | inl same ↦ rw (==→eq x k same) at h.0
  | inr other ↦ includes-All P k xs h.1 (rw other at e)
]

of_IsParent :
    (frontier : List ℕ) (c : Category) (o : Option ℕ)
    → c.parent_id ≡ o
    → is_child_of frontier c ≡ true
    → (p : ℕ) × (IsParent p c × (includes p frontier ≡ true))
of_IsParent frontier c none e h = absurd (not_both false (rw e at h) refl)
of_IsParent frontier c (some p) e h =
    let (nonzero, in_) = and_true (not (p == 0)) (includes p frontier) (rw e at h) in
    (p, ((e, not-true (p == 0) nonzero), in_))

-- A child has a parent in the frontier.
IsParent-of_child :
    (frontier : List ℕ) (c : Category)
    → is_child_of frontier c ≡ true
    → (p : ℕ) × (IsParent p c × (includes p frontier ≡ true))
IsParent-of_child frontier c h = of_IsParent frontier c c.parent_id refl h

children_of-All :
    (P : ℕ → Type 0) (frontier : List ℕ) (all : List Category)
    → All (λ (c : Category). is_child_of frontier c ≡ true → P c.id) all
    → All P (children_of all frontier)
children_of-All P frontier [] h = tt
children_of-All P frontier (c ∷ cs) h =
    let rest = children_of-All P frontier cs h.1 in
    elim (Bool-cases (is_child_of frontier c)) [
      | inl child ↦ rw child (h.0 child, rest)
      | inr other ↦ rw other rest
    ]

module _ (all : List Category) (depth : ℕ → ℕ) (deepest : ℕ) where
  children_deep :
      (k : ℕ) (frontier : List ℕ)
      → Deeper depth all
      → All (λ (c : Category). depth c.id ≤ deepest) all
      → All (λ f. (k ≤ depth f) × (depth f ≤ deepest)) frontier
      → All (λ f. (suc k ≤ depth f) × (depth f ≤ deepest)) (children_of all frontier)
  children_deep k frontier deeper bound h = children_of-All _ frontier all (
      All-map all
        (λ c both child.
          let (p, (parent, in_)) = IsParent-of_child frontier c child in
          let low = includes-All (λ f. (k ≤ depth f) × (depth f ≤ deepest)) p frontier h in_ in
          let below = both.0 p parent in (omega (arith, low.0, below), both.1))
        (All-both _ _ all deeper bound))

  -- With as many rounds as the tree is deep, the walk ends.
  pub walk_ends :
      (fuel k : ℕ) (result frontier : List ℕ)
      → Deeper depth all
      → All (λ (c : Category). depth c.id ≤ deepest) all
      → All (λ f. (k ≤ depth f) × (depth f ≤ deepest)) frontier
      → deepest < k + fuel
      → (ids : List ℕ) × (walk fuel all result frontier ≡ some ids)
  unfolding walk
  walk_ends fuel k result [] deeper bound h enough = (result, refl)
  walk_ends zero k result (f ∷ fs) deeper bound h enough =
      let low = h.0 in absurd (omega (arith, low.0, low.1))
  walk_ends (suc fuel) k result (f ∷ fs) deeper bound h enough =
      walk_ends fuel (suc k) _ (children_of all (f ∷ fs)) deeper bound
        (children_deep k (f ∷ fs) deeper bound h) (omega arith)

some-injective : {A : Type 0} (a b : A) → some a ≡ some b → a ≡ b
some-injective a b h = cc

or_left : (a b : Bool) → a ≡ true → (a || b) ≡ true
or_left a b h = rw h refl

or_split : (a b : Bool) → (a || b) ≡ true → (a ≡ true) ⊎ (b ≡ true)
or_split true b h = inl refl
or_split false b h = inr h

module _ (all : List Category) where
  -- What the walk has seen is closed under children, but for those of the frontier.
  abbrev Seen : List ℕ → List ℕ → Type 0
  Seen visited frontier =
      All
        (λ (c : Category).
          (p : ℕ)
          → IsParent p c
          → includes p visited ≡ true
          → (includes c.id visited ≡ true) ⊎ (includes p frontier ≡ true))
        all

  -- A child of the frontier is among its children.
  children_in :
      (frontier : List ℕ) (rows : List Category)
      → All
          (λ (c : Category).
            is_child_of frontier c ≡ true → includes c.id (children_of rows frontier) ≡ true)
          rows
  children_in frontier [] = tt
  children_in frontier (c ∷ cs) =
      let rest = children_in frontier cs in
      elim (Bool-cases (is_child_of frontier c)) [
        | inl child ↦ (
          (λ _. rw (child, eq→== c.id c.id refl) refl),
          All-map cs
              (λ (e : Category)
                  (h : is_child_of frontier e ≡ true
                    → includes e.id (children_of cs frontier) ≡ true)
                  k.
                rw child (or_later _ _ (h k)))
              rest,
        )
        | inr other ↦ (
          (λ k. absurd (not_both _ k other)),
          All-map cs
              (λ (e : Category)
                  (h : is_child_of frontier e ≡ true
                    → includes e.id (children_of cs frontier) ≡ true)
                  k.
                rw other (h k))
              rest,
        )
      ]

  IsParent-child :
      (p : ℕ) (frontier : List ℕ) (c : Category)
      → IsParent p c
      → includes p frontier ≡ true
      → is_child_of frontier c ≡ true
  IsParent-child p frontier c h in_ = rw (h.0, h.1, in_) refl

  Seen-step :
      (visited frontier : List ℕ)
      → Seen visited frontier
      → Seen (visited ++ children_of all frontier) (children_of all frontier)
  Seen-step visited frontier seen =
      let children = children_of all frontier in
      All-map all
        (λ c both p parent in_.
          elim (or_split (includes p visited) (includes p children)
            (rw (includes-append p visited children) at in_)) [
              | inl old ↦ elim (both.0 p parent old) [
                | inl there ↦ inl (rw (includes-append c.id visited children) (or_left _ _ there))
                | inr front ↦ inl (
                    rw (includes-append c.id visited children)
                      (or_later _ _ (both.1 (IsParent-child p frontier c parent front))))
              ]
              | inr new ↦ inr new
            ])
        (All-both _ _ all seen (children_in frontier all))

  walk-Seen :
      (fuel start : ℕ) (result frontier ids : List ℕ)
      → Seen (start ∷ result) frontier
      → walk fuel all result frontier ≡ some ids
      → Seen (start ∷ ids) []
  unfolding walk
  walk-Seen fuel start result [] ids seen e = rw (some-injective result ids e) at seen
  walk-Seen zero start result (f ∷ fs) ids seen e = absurd cc
  walk-Seen (suc fuel) start result (f ∷ fs) ids seen e =
      walk-Seen fuel start (result ++ children_of all (f ∷ fs)) (children_of all (f ∷ fs)) ids
        (Seen-step (start ∷ result) (f ∷ fs) seen) e

everyone : (all : List Category) → All (λ _. Unit {0}) all
everyone [] = tt
everyone (c ∷ cs) = (tt, everyone cs)

-- The ids that the walk returns are closed: with the category or a descendant, its children are there.
pub walk_closed :
    (fuel start : ℕ) (all : List Category) (ids : List ℕ)
    → walk fuel all [] (start ∷ []) ≡ some ids
    → All
        (λ (c : Category).
          (p : ℕ)
          → IsParent p c
          → includes p (start ∷ ids) ≡ true
          → includes c.id (start ∷ ids) ≡ true)
        all
walk_closed fuel start all ids e =
    All-map all
      (λ c h p parent in_. elim (h p parent in_) [
        | inl there ↦ there
        | inr nowhere ↦ absurd (not_both false nowhere refl)
      ])
      (walk-Seen all fuel start [] (start ∷ []) ids
        (All-map all (λ c _ p _ in_. inr in_) (everyone all)) e)
