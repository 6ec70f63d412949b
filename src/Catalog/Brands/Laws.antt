-- ===== src/Catalog/Brands/Laws.antt =====
-- The answers of createBrand of src/services/catalog/brand.service.ts.
use e_commerce_nodejs.Base.{
  ℕ, suc, ◌≡◌, refl, ◌∙◌, true, false, Bool-cases, Option-cases, inl, inr, ◌⊎◌, none, some, List,
  [], ◌∷◌, map, length, any, find_by, is_some, ◌&&◌,
}
use e_commerce_nodejs.Base.Texts.{Text, text_eq}
use e_commerce_nodejs.Store.{Result, ok, err, conflict, gets, throw_if, or_throw, ◌>>=◌}
use e_commerce_nodejs.Catalog.Slugs.{Unicode, slugify, ensure_unique_slug}
use e_commerce_nodejs.Catalog.Slugs.Free.{ensure_unique_slug-finds}
use e_commerce_nodejs.Catalog.Brands.{
  Brand, Showroom, CreateBrandInput, is_brand_slug_taken, is_known_media, create_brand_row,
  brand_data, brand_slug, create_brand,
}

used_slugs : List Brand → List Text
used_slugs rows = map (λ (b : Brand). b.slug) rows

length-used_slugs : (rows : List Brand) → length (used_slugs rows) ≡ length rows
unfolding used_slugs
length-used_slugs [] = refl
length-used_slugs (b ∷ rows) = rw (length-used_slugs rows) refl

-- A slug that a query finds is one of the table's.
found-used :
    (slug : Text) (rows : List Brand)
    → elim (find_by (λ (b : Brand). text_eq slug b.slug) rows) [ none ↦ false | some b ↦ true ]
      ≡ true
    → any (text_eq slug) (used_slugs rows) ≡ true
unfolding used_slugs
found-used slug [] h = absurd cc
found-used slug (b ∷ rows) h = elim (Bool-cases (text_eq slug b.slug)) [
  | inl here ↦ rw here refl
  | inr there ↦ rw there (found-used slug rows (rw there at h))
]

abbrev pub with_brand : Brand → Showroom → Showroom
with_brand b s = record s { brands = b ∷ s.brands; brand_seq = suc s.brand_seq }

module _ (unicode : Unicode) where
  -- A brand with a slug that no brand had, or a conflict on the slug of the input, and nothing written.
  unfoldable pub Answers : CreateBrandInput → Showroom → Result Brand × Showroom → Type 0
  Answers input s r =
      ((slug : Text) × (is_brand_slug_taken slug none s ≡ false)
        × (r ≡ (
          ok (brand_data input slug s.brand_seq),
          with_brand (brand_data input slug s.brand_seq) s,
        )))
      ⊎ ((slug : Text) × (input.slug ≡ some slug)
          × (is_brand_slug_taken (slugify unicode slug) none s ≡ true)
          × (r ≡ (err (conflict "the slug is taken"), s)))

  free_slug :
      (input : CreateBrandInput) (s : Showroom)
      → (slug : Text) × (ensure_unique_slug unicode
            (suc (length s.brands))
            input.name
            (λ c. is_brand_slug_taken c none s)
          ≡ some slug)
        × (is_brand_slug_taken slug none s ≡ false)
  free_slug input s = rw⁻¹ (length-used_slugs s.brands) (
      ensure_unique_slug-finds unicode input.name (λ c. is_brand_slug_taken c none s)
        (used_slugs s.brands) (λ slug h. found-used slug s.brands h))

  -- The two ways a search that ends goes on.
  created :
      (fuel : ℕ) (input : CreateBrandInput) (s : Showroom) (slug : Text)
      → brand_slug unicode fuel input s ≡ some slug
      → is_brand_slug_taken slug none s ≡ false
      → (is_some input.slug && false) ≡ false
      → is_known_media (brand_data input [] 0).logo_media_id s ≡ true
      → create_brand unicode fuel input s
        ≡ (ok (brand_data input slug s.brand_seq), with_brand (brand_data input slug s.brand_seq) s)
  unfolding create_brand create_brand_row gets or_throw throw_if ◌>>=◌
  created fuel input s slug found free pass known = rw (found, free, pass, free, known) refl

  refused :
      (fuel : ℕ) (input : CreateBrandInput) (s : Showroom) (slug : Text)
      → brand_slug unicode fuel input s ≡ some slug
      → is_brand_slug_taken slug none s ≡ true
      → (is_some input.slug && true) ≡ true
      → create_brand unicode fuel input s ≡ (err (conflict "the slug is taken"), s)
  unfolding create_brand gets or_throw throw_if ◌>>=◌
  refused fuel input s slug found taken stop = rw (found, taken, stop) refl

  named-slug :
      (fuel : ℕ) (input : CreateBrandInput) (s : Showroom)
      → input.slug ≡ none
      → brand_slug unicode fuel input s
        ≡ ensure_unique_slug unicode fuel input.name (λ c. is_brand_slug_taken c none s)
  unfolding brand_slug
  named-slug fuel input s no_slug = rw no_slug refl

  -- A brand whose logo, if any, is in the media library is created, with a slug that no brand had; only
  -- where the input names a slug that a brand has, that is refused as a conflict, and nothing is written.
  -- One turn more than there are brands is enough for the search.
  pub create_brand-Answers :
      (input : CreateBrandInput) (s : Showroom)
      → is_known_media (brand_data input [] 0).logo_media_id s ≡ true
      → Answers input s (create_brand unicode (suc (length s.brands)) input s)
  unfolding Answers brand_slug
  create_brand-Answers input s known = elim (Option-cases input.slug) [
    | inl no_slug ↦
        let (slug, found, free) = free_slug input s in
        inl (
          slug,
          free,
          created _ input s slug (named-slug _ input s no_slug ∙ found) free (rw no_slug refl)
              known,
        )
    | inr (t, own) ↦ elim (Bool-cases (is_brand_slug_taken (slugify unicode t) none s)) [
      | inl taken ↦ inr (t, own, taken, refused _ input s _ (rw own refl) taken (rw own refl))
      | inr free ↦
          inl (slugify unicode t, free, created _ input s _ (rw own refl) free (rw own refl) known)
    ]
  ]
