-- ===== src/Catalog/Aggregates.antt =====
-- The lowest and the highest of the prices of variants.
pub mod Recompute
use e_commerce_nodejs.Base.{
  arith, Bool, List, [], ◌∷◌, All, All-map, ℕ, ◌≡◌, refl, ◌∙◌, ap, true, false, Bool-cases,
  not_both, inl, inr, ◌⊎◌, Option, none, some, OnSome, filter, ◌==◌,
}
use e_commerce_nodejs.Base.Int.{ℤ, ◌≤ℤ◌, min_ℤ, max_ℤ, leb_ℤ, pos}
use e_commerce_nodejs.Store.{Product, Variant, Db}
use e_commerce_nodejs.Catalog.{lowest, highest, aggregate, variant_price, cons_price, prices_of}

min_ℤ-le : (a b : ℤ) → (min_ℤ a b ≤ℤ a) × (min_ℤ a b ≤ℤ b)
min_ℤ-le a b = (ground arith, ground arith)

max_ℤ-ge : (a b : ℤ) → (a ≤ℤ max_ℤ a b) × (b ≤ℤ max_ℤ a b)
max_ℤ-ge a b = (ground arith, ground arith)

pub lowest-le : (p : ℤ) (ps : List ℤ) → All (λ q. lowest p ps ≤ℤ q) (p ∷ ps)
lowest-le p [] = (omega arith, tt)
lowest-le p (q ∷ qs) =
    let (below_p, below_rest) = min_ℤ-le p (lowest q qs) in
    (below_p, All-map (q ∷ qs) (λ r le. omega arith) (lowest-le q qs))

pub highest-ge : (p : ℤ) (ps : List ℤ) → All (λ q. q ≤ℤ highest p ps) (p ∷ ps)
highest-ge p [] = (omega arith, tt)
highest-ge p (q ∷ qs) =
    let (above_p, above_rest) = max_ℤ-ge p (highest q qs) in
    (above_p, All-map (q ∷ qs) (λ r le. omega arith) (highest-ge q qs))

-- One element of a list has a property.
abbrev pub OneOf : {A : Type 0} → (A → Type 0) → List A → Type 0
OneOf P [] = ⊥
OneOf P (x ∷ xs) = P x ⊎ OneOf P xs

pub OneOf-map :
    {A : Type 0} {P Q : A → Type 0} (xs : List A) → ((x : A) → P x → Q x) → OneOf P xs → OneOf Q xs
OneOf-map [] f h = h
OneOf-map (x ∷ xs) f (inl here) = inl (f x here)
OneOf-map (x ∷ xs) f (inr there) = inr (OneOf-map xs f there)

pub lowest-OneOf : (p : ℤ) (ps : List ℤ) → OneOf (λ q. q ≡ lowest p ps) (p ∷ ps)
lowest-OneOf p [] = inl refl
lowest-OneOf p (q ∷ qs) = elim (Bool-cases (leb_ℤ p (lowest q qs))) [
  | inl here ↦ inl (rw here refl)
  | inr there ↦
      let e : lowest q qs ≡ lowest p (q ∷ qs) = rw there refl in
      inr (OneOf-map (q ∷ qs) (λ x h. h ∙ e) (lowest-OneOf q qs))
]

pub highest-OneOf : (p : ℤ) (ps : List ℤ) → OneOf (λ q. q ≡ highest p ps) (p ∷ ps)
highest-OneOf p [] = inl refl
highest-OneOf p (q ∷ qs) = elim (Bool-cases (leb_ℤ p (highest q qs))) [
  | inl there ↦
      let e : highest q qs ≡ highest p (q ∷ qs) = rw there refl in
      inr (OneOf-map (q ∷ qs) (λ x h. h ∙ e) (highest-OneOf q qs))
  | inr here ↦ inl (rw here refl)
]

-- From the variants that pass a test to all of them.
pub filter-All_of :
    {A : Type 0} (P : A → Type 0) (p : A → Bool) (xs : List A)
    → All P (filter p xs)
    → All (λ x. p x ≡ true → P x) xs
filter-All_of P p [] h = tt
filter-All_of P p (x ∷ xs) h = elim (Bool-cases (p x)) [
  | inl hit ↦
      let both : All P (x ∷ filter p xs) = rw hit at h in
      ((λ _. both.0), filter-All_of P p xs both.1)
  | inr miss ↦ ((λ e. absurd (not_both (p x) e miss)), filter-All_of P p xs (rw miss at h))
]

pub filter-OneOf :
    {A : Type 0} (P : A → Type 0) (p : A → Bool) (xs : List A)
    → OneOf P (filter p xs)
    → OneOf (λ x. (p x ≡ true) × P x) xs
filter-OneOf P p [] h = h
filter-OneOf P p (x ∷ xs) h = elim (Bool-cases (p x)) [
  | inl hit ↦
      let one : P x ⊎ OneOf P (filter p xs) = rw hit at h in
      elim one [ inl here ↦ inl (hit, here) | inr there ↦ inr (filter-OneOf P p xs there) ]
  | inr miss ↦ inr (filter-OneOf P p xs (rw miss at h))
]

-- The prices of variants, in their order.
unfoldable pub Priced : Product → List Variant → List ℤ → Type 0
Priced product [] [] = Unit
Priced product [] (p ∷ ps) = ⊥
Priced product (v ∷ vs) [] = ⊥
Priced product (v ∷ vs) (p ∷ ps) = (variant_price product v ≡ some p) × Priced product vs ps

cons_price-some :
    (o : Option ℤ) (rest : Option (List ℤ)) (ps : List ℤ)
    → cons_price o rest ≡ some ps
    → (q : ℤ) × (qs : List ℤ) × ((o ≡ some q) × ((rest ≡ some qs) × (ps ≡ q ∷ qs)))
cons_price-some none rest ps h = absurd cc
cons_price-some (some q) none ps h = absurd cc
cons_price-some (some q) (some qs) ps h = (q, qs, (refl, (refl, cc)))

pub prices_of-Priced :
    (product : Product) (vs : List Variant) (ps : List ℤ)
    → prices_of product vs ≡ some ps
    → Priced product vs ps
unfolding prices_of Priced
prices_of-Priced product [] [] h = tt
prices_of-Priced product [] (p ∷ ps) h = absurd cc
prices_of-Priced product (v ∷ vs) ps h =
    let (q, qs, (here, (rest, e))) = cons_price-some _ _ ps h in
    rw e (here, prices_of-Priced product vs qs rest)

pub Priced-All :
    (P : ℤ → Type 0) (product : Product) (vs : List Variant) (ps : List ℤ)
    → Priced product vs ps
    → All P ps
    → All (λ v. OnSome P (variant_price product v)) vs
unfolding Priced
Priced-All P product [] [] h k = tt
Priced-All P product [] (p ∷ ps) h k = absurd h
Priced-All P product (v ∷ vs) [] h k = absurd h
Priced-All P product (v ∷ vs) (p ∷ ps) h k = (rw h.0 k.0, Priced-All P product vs ps h.1 k.1)

pub Priced-OneOf :
    (m : ℤ) (product : Product) (vs : List Variant) (ps : List ℤ)
    → Priced product vs ps
    → OneOf (λ q. q ≡ m) ps
    → OneOf (λ v. variant_price product v ≡ some m) vs
unfolding Priced
Priced-OneOf m product [] [] h k = k
Priced-OneOf m product [] (p ∷ ps) h k = absurd h
Priced-OneOf m product (v ∷ vs) [] h k = absurd h
Priced-OneOf m product (v ∷ vs) (p ∷ ps) h (inl here) = inl (h.0 ∙ ap some here)
Priced-OneOf m product (v ∷ vs) (p ∷ ps) h (inr there) =
    inr (Priced-OneOf m product vs ps h.1 there)
