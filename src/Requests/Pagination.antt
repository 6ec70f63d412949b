-- ===== src/Requests/Pagination.antt =====
-- Pages (src/utils/pagination.ts). A number that is absent, or that `Number` does not read, is none.
use e_commerce_nodejs.Base.{
  ℕ, ◌+◌, ◌-◌, ◌*◌, ◌/◌, ◌≤◌, ◌<◌, ◌≡◌, ◌↔◌, arith, max, Option, none, some, ltb, if◌then◌else◌,
  ◌==◌,
}
use native.Mathlib.Nat.{div-mul-le_self, lt-div-mul-add, le-div_iff_mul-le, div-eq_of_lt-le}
use e_commerce_nodejs.Base.Int.{ℤ, pos, negsuc}

pub record PaginationParams : Type 0 where
  pub page : ℕ
  pub limit : ℕ
  pub skip : ℕ
  pub take : ℕ

-- `Number(x) || d`, then `if (x < 1) x = d`
abbrev pub positive_or : ℕ → Option ℤ → ℕ
positive_or d none = d
positive_or d (some (pos n)) = if n == 0 then d else n
positive_or d (some (negsuc n)) = d

abbrev pub max_limit : ℕ
max_limit = 100

unfoldable pub parse_pagination : Option ℤ → Option ℤ → PaginationParams
parse_pagination page limit =
    let p = positive_or 1 page in
    let l = positive_or 20 limit in
    let capped = if ltb max_limit l then max_limit else l in
    record { page = p; limit = capped; skip = (p - 1) * capped; take = capped }

pub record PaginationMeta : Type 0 where
  pub total : ℕ
  pub page : ℕ
  pub limit : ℕ
  pub total_pages : ℕ

-- `Math.ceil(total / limit)`
abbrev pub ceil_div : ℕ → ℕ → ℕ
ceil_div n d = (n + (d - 1)) / d

unfoldable pub build_pagination_meta : ℕ → PaginationParams → PaginationMeta
build_pagination_meta total params = record {
  total = total;
  page = params.page;
  limit = params.limit;
  total_pages = max 1 (ceil_div total params.limit);
}

-- Whatever is asked for, a page holds between 1 and 100 rows, and pages are numbered from 1.
pub parse_pagination_bounds :
    (page limit : Option ℤ)
    → (1 ≤ (parse_pagination page limit).page)
      × ((1 ≤ (parse_pagination page limit).limit) × ((parse_pagination page limit).limit ≤ 100))
unfolding parse_pagination
parse_pagination_bounds page limit = ground arith

module _ (d : ℕ) (positive : 0 < d) where
  page_holds : (i : ℕ) → (i / d * d ≤ i) × (i < i / d * d + d)
  page_holds i = (div-mul-le_self i d, lt-div-mul-add positive)

  page_counted : (i total : ℕ) → i < total → i / d + 1 ≤ ceil_div total d
  page_counted i total h =
      let (_, back) = le-div_iff_mul-le {k = d} {x = i / d + 1} {y = total + (d - 1)} positive in
      back (grind (arith, page_holds i))

  page_only : (i q : ℕ) → q * d ≤ i → i < q * d + d → i / d ≡ q
  page_only i q low high = div-eq_of_lt-le d low (grind arith)

-- A page shows a row.
abbrev pub Shows : PaginationParams → ℕ → Type 0
Shows params i = (params.skip ≤ i) × (i < params.skip + params.take)

-- Row `i` of `total` rows is shown by the page `i / limit + 1` and by no other, and that page is one of
-- those that the meta data counts.
pub pages_cover :
    (page limit : Option ℤ) (i total : ℕ)
    → i < total
    → (Shows (parse_pagination page limit) i
        ↔ ((parse_pagination page limit).page ≡ i / (parse_pagination page limit).limit + 1))
      × (i / (parse_pagination page limit).limit + 1
          ≤ (build_pagination_meta total (parse_pagination page limit)).total_pages)
unfolding parse_pagination build_pagination_meta
pages_cover page limit i total h =
    let p = positive_or 1 page in
    let l = if ltb max_limit (positive_or 20 limit) then max_limit else positive_or 20 limit in
    let first : 1 ≤ p = ground arith in
    let positive : 0 < l = ground arith in
    let held = page_holds l positive i in
    (
      (
        (λ shown.
            let only = page_only l positive i (p - 1) shown.0 shown.1 in
            omega (arith, only, first)),
        (λ e. let same : p - 1 ≡ i / l = omega (arith, e) in rw same held),
      ),
      omega (arith, page_counted l positive i total h),
    )
