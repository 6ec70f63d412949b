-- ===== src/Catalog/Slugs.antt =====
-- src/utils/slug.ts: the slug of a name, and the first free one with a number behind it.
pub mod Numbered
pub mod Free
use e_commerce_nodejs.Base.{
  ℕ, zero, suc, ◌+◌, ◌/◌, ◌%◌, Bool, true, false, not, Option, none, some, List, [], ◌∷◌, ◌++◌, ltb,
  ◌==◌, if◌then◌else◌,
}
use e_commerce_nodejs.Base.Texts.{Text, trim}

-- What the JavaScript runtime knows of Unicode: `\p{L}` or `\p{N}`, and `toLowerCase`.
pub record Unicode : Type 0 where
  pub is_letter_or_number : ℕ → Bool
  pub to_lower_case : Text → Text

abbrev pub dash : ℕ
dash = 45

-- `.replace(/[^\p{L}\p{N}]+/gu, "-")`, where `in_run` says that the last character was replaced.
abbrev pub dash_runs : (ℕ → Bool) → Bool → Text → Text
dash_runs p in_run [] = []
dash_runs p in_run (c ∷ s) =
    let rest = dash_runs p (not (p c)) s in
    if p c then c ∷ rest else if in_run then rest else dash ∷ rest

abbrev pub drop_dashes : Text → Text
drop_dashes [] = []
drop_dashes (c ∷ s) = let rest = drop_dashes s in if c == dash then rest else c ∷ s

abbrev end_dash : ℕ → Text → Text
end_dash c [] = if c == dash then [] else c ∷ []
end_dash c (d ∷ s) = c ∷ d ∷ s

abbrev pub drop_end_dashes : Text → Text
drop_end_dashes [] = []
drop_end_dashes (c ∷ s) = end_dash c (drop_end_dashes s)

-- `.replace(/-{2,}/g, "-")`
abbrev pub squeeze_dashes : Bool → Text → Text
squeeze_dashes after_dash [] = []
squeeze_dashes after_dash (c ∷ s) =
    let rest = squeeze_dashes (c == dash) s in
    if c == dash then if after_dash then rest else c ∷ rest else c ∷ rest

unfoldable pub slugify : Unicode → Text → Text
slugify unicode s = squeeze_dashes false (
    drop_end_dashes
      (drop_dashes (dash_runs unicode.is_letter_or_number false (unicode.to_lower_case (trim s)))))

-- A number as a template literal prints it; a number below the fuel has all its digits.
unfoldable pub decimal : ℕ → ℕ → Text
decimal zero n = []
decimal (suc fuel) n =
    let front = decimal fuel (n / 10) in (if ltb n 10 then [] else front) ++ ((48 + n % 10) ∷ [])

unfoldable pub numbered : Text → ℕ → Text
numbered base counter = base ++ (dash ∷ decimal (suc counter) counter)

-- The loop of `ensureUniqueSlug`, on fuel.
unfoldable pub next_free : (Text → Bool) → Text → ℕ → Text → ℕ → Option Text
next_free is_taken base zero candidate counter = none
next_free is_taken base (suc fuel) candidate counter =
    let rest = next_free is_taken base fuel (numbered base counter) (suc counter) in
    if is_taken candidate then rest else some candidate

-- `slugify(baseInput) || "item"`
unfoldable pub slug_base : Text → Text
slug_base [] = 105 ∷ 116 ∷ 101 ∷ 109 ∷ []
slug_base (c ∷ s) = c ∷ s

unfoldable pub ensure_unique_slug : Unicode → ℕ → Text → (Text → Bool) → Option Text
ensure_unique_slug unicode fuel base_input is_taken =
    let base = slug_base (slugify unicode base_input) in next_free is_taken base fuel base 2
