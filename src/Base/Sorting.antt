-- ===== src/Base/Sorting.antt =====
-- Rows in the order of a number: `orderBy: { key: "asc" }`, equal keys in the order of the table.
use Prim.Native.Nat.{ℕ, ◌+◌}
use mathlib.Core.Path.{◌≡◌, refl}
use mathlib.Core.List.{List, [], ◌∷◌}
use native.Mathlib.Omega.{arith}
use e_commerce_nodejs.Base.Tests.{leb, if◌then◌else◌}
use e_commerce_nodejs.Base.Lists.{sum_of}

module _ {ℓ} {A : Type ℓ} (key : A → ℕ) where
  abbrev pub insert : A → List A → List A
  insert x [] = x ∷ []
  insert x (y ∷ ys) = let rest = insert x ys in if leb (key x) (key y) then x ∷ y ∷ ys else y ∷ rest

  abbrev pub sort_by : List A → List A
  sort_by [] = []
  sort_by (x ∷ xs) = insert x (sort_by xs)

  -- A sum over the rows does not depend on their order.
  sum_of-insert : (f : A → ℕ) (x : A) (xs : List A) → sum_of f (insert x xs) ≡ f x + sum_of f xs
  sum_of-insert f x [] = refl
  sum_of-insert f x (y ∷ ys) = ground (arith, sum_of-insert f x ys)

  pub sum_of-sort_by : (f : A → ℕ) (xs : List A) → sum_of f (sort_by xs) ≡ sum_of f xs
  sum_of-sort_by f [] = refl
  sum_of-sort_by f (x ∷ xs) = ground (arith, sum_of-insert f x (sort_by xs), sum_of-sort_by f xs)
