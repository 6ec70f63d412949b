-- ===== src/Catalog/Slugs/Free.antt =====
-- `ensureUniqueSlug` of src/utils/slug.ts always finds a slug.
use e_commerce_nodejs.Base.{
  ℕ, zero, suc, ◌≤◌, ◌<◌, ◌≡◌, refl, ap, sym, ◌∙◌, Bool, true, false, not, some, List, [], ◌∷◌,
  length, filter, any, arith, inl, inr, Bool-cases,
}
use e_commerce_nodejs.Base.Texts.{Text, text_eq, text_eq→≡}
use e_commerce_nodejs.Catalog.Slugs.{
  Unicode, slugify, slug_base, numbered, next_free, ensure_unique_slug,
}
use e_commerce_nodejs.Catalog.Slugs.Numbered.{numbered-differs, base-differs}

abbrev remove : Text → List Text → List Text
remove s xs = filter (λ t. not (text_eq s t)) xs

length-filter : {A : Type 0} (p : A → Bool) (xs : List A) → length (filter p xs) ≤ length xs
length-filter p [] = omega arith
length-filter p (x ∷ xs) = ground (arith, length-filter p xs)

remove-shorter :
    (s : Text) (xs : List Text) → any (text_eq s) xs ≡ true → length (remove s xs) < length xs
remove-shorter s [] h = absurd cc
remove-shorter s (x ∷ xs) h = elim (Bool-cases (text_eq s x)) [
  | inl same ↦ rw same (let le = length-filter (λ t. not (text_eq s t)) xs in omega arith)
  | inr other ↦ rw other (let lt = remove-shorter s xs (rw other at h) in omega arith)
]

remove-keeps :
    (s t : Text) (xs : List Text)
    → text_eq s t ≡ false
    → any (text_eq t) xs ≡ true
    → any (text_eq t) (remove s xs) ≡ true
remove-keeps s t [] d h = absurd cc
remove-keeps s t (x ∷ xs) d h = elim (Bool-cases (text_eq t x)) [
  | inl here ↦
      let kept : text_eq s x ≡ false = ap (text_eq s) (sym (text_eq→≡ t x here)) ∙ d in
      rw (kept, here) refl
  | inr there ↦
      let rest = remove-keeps s t xs d (rw there at h) in
      elim (Bool-cases (text_eq s x)) [ inl gone ↦ rw gone rest | inr kept ↦ rw (kept, there) rest ]
]

-- The candidates from `candidate` and `counter` on: those in use are among `left`.
unfoldable Covers : (Text → Bool) → Text → Text → ℕ → List Text → Type 0
Covers is_taken base candidate counter left =
    (is_taken candidate ≡ true → any (text_eq candidate) left ≡ true)
    × ((n : ℕ)
        → counter ≤ n
        → is_taken (numbered base n) ≡ true
        → any (text_eq (numbered base n)) left ≡ true)

Covers-next :
    (is_taken : Text → Bool) (base candidate : Text) (counter : ℕ) (left : List Text)
    → ((n : ℕ) → counter ≤ n → text_eq candidate (numbered base n) ≡ false)
    → Covers is_taken base candidate counter left
    → Covers is_taken base (numbered base counter) (suc counter) (remove candidate left)
unfolding Covers
Covers-next is_taken base candidate counter left fresh (here, later) =
    let kept : (n : ℕ)
        → counter ≤ n
        → is_taken (numbered base n) ≡ true
        → any (text_eq (numbered base n)) (remove candidate left) ≡ true =
      λ n le h. remove-keeps candidate (numbered base n) left (fresh n le) (later n le h) in
    (kept counter (omega arith), λ n le. kept n (omega arith))

next_free-finds :
    (fuel : ℕ) (is_taken : Text → Bool) (base candidate : Text) (counter : ℕ) (left : List Text)
    → ((n : ℕ) → counter ≤ n → text_eq candidate (numbered base n) ≡ false)
    → Covers is_taken base candidate counter left
    → length left < fuel
    → (slug : Text) × (next_free is_taken base fuel candidate counter ≡ some slug)
      × (is_taken slug ≡ false)
unfolding next_free Covers
next_free-finds zero is_taken base candidate counter left fresh covers h = absurd (omega arith)
next_free-finds (suc fuel) is_taken base candidate counter left fresh covers h =
    elim (Bool-cases (is_taken candidate)) [
      | inl used ↦
          let shorter = remove-shorter candidate left (covers.0 used) in
          let (slug, found, free) =
            next_free-finds fuel is_taken base (numbered base counter) (suc counter)
              (remove candidate left) (λ n le. numbered-differs base counter n (omega arith))
              (Covers-next is_taken base candidate counter left fresh covers) (omega arith) in
          (slug, rw used found, free)
      | inr free ↦ (candidate, rw free refl, free)
    ]

-- The same for any test whose answers are among `used`.
pub ensure_unique_slug-finds :
    (unicode : Unicode) (base_input : Text) (is_taken : Text → Bool) (used : List Text)
    → ((s : Text) → is_taken s ≡ true → any (text_eq s) used ≡ true)
    → (slug : Text) × (ensure_unique_slug unicode (suc (length used)) base_input is_taken
        ≡ some slug)
      × (is_taken slug ≡ false)
unfolding ensure_unique_slug Covers
ensure_unique_slug-finds unicode base_input is_taken used h =
    let base = slug_base (slugify unicode base_input) in
    next_free-finds (suc (length used)) is_taken base base 2 used (λ n le. base-differs base n)
      (h base, λ n le. h (numbered base n)) (omega arith)

-- Whatever the name and whatever the slugs in use, the loop ends, at a slug that is not in use: one
-- turn more than there are slugs in use is enough.
pub ensure_unique_slug-IsFree :
    (unicode : Unicode) (base_input : Text) (used : List Text)
    → (slug : Text) × (ensure_unique_slug unicode
          (suc (length used))
          base_input
          (λ s. any (text_eq s) used)
        ≡ some slug)
      × (any (text_eq slug) used ≡ false)
ensure_unique_slug-IsFree unicode base_input used =
    ensure_unique_slug-finds unicode base_input (λ s. any (text_eq s) used) used (λ s h. h)
