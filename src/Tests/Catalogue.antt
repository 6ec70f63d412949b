-- ===== src/Tests/Catalogue.antt =====
-- Slugs and brands at small values.
use e_commerce_nodejs.Base.{
  ◌≡◌, refl, true, false, ◌&&◌, if◌then◌else◌, leb, none, some, [], ◌∷◌, ◌++◌, any,
}
use e_commerce_nodejs.Base.Texts.{Text, text_eq, is_digit}
use e_commerce_nodejs.Catalog.Slugs.{
  Unicode, slugify, decimal, numbered, next_free, slug_base, ensure_unique_slug,
}
use e_commerce_nodejs.Catalog.Slugs.Free.{ensure_unique_slug-IsFree}
use e_commerce_nodejs.Catalog.Brands.{Showroom, CreateBrandInput, create_brand}
use e_commerce_nodejs.Catalog.Brands.Laws.{Answers, create_brand-Answers}

-- The small Latin letters and the digits.
abbrev latin : Unicode
latin = record {
  is_letter_or_number = λ c. if leb 97 c && leb c 122 then true else is_digit c;
  to_lower_case = λ s. s;
}

abbrev item : Text
item = 105 ∷ 116 ∷ 101 ∷ 109 ∷ []

-- "a  b!" becomes "a-b".
slugify_run : slugify latin (97 ∷ 32 ∷ 32 ∷ 98 ∷ 33 ∷ []) ≡ 97 ∷ 45 ∷ 98 ∷ []
unfolding slugify
slugify_run = refl

-- A text of signs alone has no slug.
slugify_signs_run : slugify latin (33 ∷ 33 ∷ []) ≡ []
unfolding slugify
slugify_signs_run = refl

decimal_run : decimal 121 120 ≡ 49 ∷ 50 ∷ 48 ∷ []
unfolding decimal
decimal_run = refl

-- "item-2" where "item" is in use.
ensure_unique_slug_run :
    ensure_unique_slug latin 3 (33 ∷ []) (λ s. text_eq s item) ≡ some (item ++ (45 ∷ 50 ∷ []))
unfolding ensure_unique_slug next_free slug_base slugify numbered decimal
ensure_unique_slug_run = refl

ensure_unique_slug-IsFree_example :
    (slug : Text) × (ensure_unique_slug latin 2 (33 ∷ []) (λ s. any (text_eq s) (item ∷ []))
      ≡ some slug)
    × (any (text_eq slug) (item ∷ []) ≡ false)
ensure_unique_slug-IsFree_example = ensure_unique_slug-IsFree latin (33 ∷ []) (item ∷ [])

abbrev showroom : Showroom
showroom = record {
  brands =
      record {
        id = 1;
        name = item;
        slug = item;
        description = none;
        logo_url = none;
        logo_media_id = none;
        is_active = true;
        meta_title = none;
        meta_description = none;
      }
      ∷ [];
  brand_seq = 2;
  product_brands = [];
  media = 4 ∷ [];
}

abbrev item_again : CreateBrandInput
item_again = record {
  name = item;
  slug = none;
  description = none;
  logo_url = some "logo.png";
  logo_media_id = some (some 4);
  is_active = none;
  meta_title = none;
  meta_description = none;
}

create_brand-Answers_example :
    Answers latin item_again showroom (create_brand latin 2 item_again showroom)
create_brand-Answers_example = create_brand-Answers latin item_again showroom refl
