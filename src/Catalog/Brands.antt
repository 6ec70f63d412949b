-- ===== src/Catalog/Brands.antt =====
-- Brands (src/services/catalog/brand.service.ts), with syncUrlWithMediaId of src/utils/mediaSync.ts. The
-- cache is left out.
pub mod Laws
use Prim.Native.String.{String}
use e_commerce_nodejs.Base.{
  ℕ, suc, ◌<◌, Bool, true, false, not, ◌&&◌, Option, none, some, List, [], ◌∷◌, length, filter, any,
  find_by, or_else, given, is_some, ltb, ◌==◌, if◌then◌else◌,
}
use e_commerce_nodejs.Base.Texts.{Text, text_eq}
use e_commerce_nodejs.Store.{
  ApiError, Result, ok, err, not_found, conflict, internal, prisma, Act, Table, pure, gets,
  throw_if, or_throw, ◌>>=◌, ◌>>◌, update_row, delete_many,
}
use e_commerce_nodejs.Catalog.Slugs.{Unicode, slugify, ensure_unique_slug}

pub record Brand : Type 0 where
  pub id : ℕ
  pub name : Text
  pub slug : Text
  pub description : Option String
  pub logo_url : Option String
  pub logo_media_id : Option ℕ
  pub is_active : Bool
  pub meta_title : Option String
  pub meta_description : Option String

-- The brands, newest first, the brand of each product, and the ids of the media library.
pub record Showroom : Type 0 where
  pub brands : List Brand
  pub brand_seq : ℕ
  pub product_brands : List (Option ℕ)
  pub media : List ℕ

abbrev pub brands : Table Showroom Brand
brands = record { rows = λ s. s.brands; put = λ rs s. record s { brands = rs } }

-- `none` is a field that is not given, `some none` one that is null.
pub record CreateBrandInput : Type 0 where
  pub name : Text
  pub slug : Option Text
  pub description : Option String
  pub logo_url : Option String
  pub logo_media_id : Option (Option ℕ)
  pub is_active : Option Bool
  pub meta_title : Option String
  pub meta_description : Option String

pub record UpdateBrandInput : Type 0 where
  pub name : Option Text
  pub slug : Option Text
  pub description : Option String
  pub logo_url : Option String
  pub logo_media_id : Option (Option ℕ)
  pub is_active : Option Bool
  pub meta_title : Option String
  pub meta_description : Option String

-- The url that is written: null where the media id is null.
abbrev pub sync_url_with_media_id : Option (Option ℕ) → Option String → Option (Option String)
sync_url_with_media_id none none = none
sync_url_with_media_id none (some url) = some (some url)
sync_url_with_media_id (some none) url = some none
sync_url_with_media_id (some (some id)) none = none
sync_url_with_media_id (some (some id)) (some url) = some (some url)

abbrev pub is_brand_slug_taken : Text → Option ℕ → Showroom → Bool
is_brand_slug_taken slug exclude_id s =
    elim (find_by (λ (b : Brand). text_eq slug b.slug) s.brands) [
      | none ↦ false
      | some b ↦ elim exclude_id [ none ↦ true | some id ↦ not (b.id == id) ]
    ]

-- The foreign key of a logo.
abbrev pub is_known_media : Option ℕ → Showroom → Bool
is_known_media none s = true
is_known_media (some id) s = any (λ m. m == id) s.media

-- What the unique index on the slug and the foreign key of the logo say to a row.
abbrev pub row_error : Bool → Bool → Option ApiError
row_error true known = some (prisma "P2002")
row_error false false = some (prisma "P2003")
row_error false true = none

-- `prisma.brand.create`
abbrev write_brand : Option ApiError → Brand → Showroom → Result Brand × Showroom
write_brand none b s = (ok b, record s { brands = b ∷ s.brands; brand_seq = suc s.brand_seq })
write_brand (some e) b s = (err e, s)

unfoldable pub create_brand_row : (ℕ → Brand) → Act Showroom Brand
create_brand_row make s =
    let b = make s.brand_seq in
    write_brand (row_error (is_brand_slug_taken b.slug none s) (is_known_media b.logo_media_id s)) b
      s

-- The row of `create`'s `data`.
abbrev pub brand_data : CreateBrandInput → Text → ℕ → Brand
brand_data input slug id = record {
  id = id;
  name = input.name;
  slug = slug;
  description = input.description;
  logo_url = or_else (sync_url_with_media_id input.logo_media_id input.logo_url) none;
  logo_media_id = or_else input.logo_media_id none;
  is_active = or_else input.is_active true;
  meta_title = input.meta_title;
  meta_description = input.meta_description;
}

abbrev pub find_brand : ℕ → Showroom → Option Brand
find_brand id s = find_by (λ (b : Brand). b.id == id) s.brands

module _ (unicode : Unicode) where
  -- The slug of the input, or a free one made from the name in as many turns as the fuel allows.
  unfoldable pub brand_slug : ℕ → CreateBrandInput → Showroom → Option Text
  brand_slug fuel input s = elim input.slug [
    | none ↦ ensure_unique_slug unicode fuel input.name (λ c. is_brand_slug_taken c none s)
    | some slug ↦ some (slugify unicode slug)
  ]

  unfoldable pub create_brand : ℕ → CreateBrandInput → Act Showroom Brand
  create_brand fuel input = do
    found ← gets (brand_slug fuel input)
    slug ← or_throw found (internal "the search for a slug has not ended")
    taken ← gets (is_brand_slug_taken slug none)
    throw_if (is_some input.slug && taken) (conflict "the slug is taken")
    create_brand_row (brand_data input slug)

  abbrev pub set_brand : UpdateBrandInput → Brand → Brand
  set_brand input b = record b {
    name = or_else input.name b.name;
    slug = elim input.slug [ none ↦ b.slug | some t ↦ slugify unicode t ];
    description = given input.description b.description;
    logo_url = or_else (sync_url_with_media_id input.logo_media_id input.logo_url) b.logo_url;
    logo_media_id = or_else input.logo_media_id b.logo_media_id;
    is_active = or_else input.is_active b.is_active;
    meta_title = given input.meta_title b.meta_title;
    meta_description = given input.meta_description b.meta_description;
  }

  unfoldable pub check_brand_slug : ℕ → Option Text → Act Showroom (Unit {0})
  check_brand_slug id none = pure tt
  check_brand_slug id (some slug) = do
    taken ← gets (is_brand_slug_taken (slugify unicode slug) (some id))
    throw_if taken (conflict "the slug is taken")

  -- The unique index on the slug is left to the check.
  unfoldable pub update_brand : ℕ → UpdateBrandInput → Act Showroom (Unit {0})
  update_brand id input = do
    brand ← gets (find_brand id)
    old ← or_throw brand (not_found "brand")
    check_brand_slug id input.slug
    known ← gets (is_known_media (or_else input.logo_media_id none))
    throw_if (not known) (prisma "P2003")
    update_row brands (λ b. b.id == id) (set_brand input)

abbrev pub is_of_brand : ℕ → Option ℕ → Bool
is_of_brand id none = false
is_of_brand id (some b) = b == id

unfoldable pub delete_brand : ℕ → Act Showroom (Unit {0})
delete_brand id = do
  brand ← gets (find_brand id)
  old ← or_throw brand (not_found "brand")
  product_count ← gets (λ s. length (filter (is_of_brand id) s.product_brands))
  throw_if (ltb 0 product_count) (conflict "the brand has products")
  delete_many brands (λ b. b.id == id)

unfoldable pub get_brand_by_id : ℕ → Act Showroom Brand
get_brand_by_id id = do brand ← gets (find_brand id); or_throw brand (not_found "brand")
