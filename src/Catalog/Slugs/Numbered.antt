-- ===== src/Catalog/Slugs/Numbered.antt =====
-- The candidates that `ensureUniqueSlug` of src/utils/slug.ts tries.
use e_commerce_nodejs.Base.{
  ℕ, zero, suc, ◌+◌, ◌-◌, ◌*◌, ◌/◌, ◌%◌, ◌<◌, ◌≡◌, refl, ap, sym, ◌∙◌, false, some, [], ◌∷◌, ◌++◌,
  ltb, arith, inl, inr, Bool-cases, eq→==,
}
use e_commerce_nodejs.Base.Texts.{Text, text_eq, text_eq→≡, strip_prefix}
use e_commerce_nodejs.Catalog.Slugs.{decimal, numbered, dash}

-- The number that a text of digits writes, behind the digits of `n`.
unfoldable value_of : ℕ → Text → ℕ
value_of n [] = n
value_of n (c ∷ s) = value_of (n * 10 + (c - 48)) s

value_of-append :
    (n : ℕ) (s : Text) (c : ℕ) → value_of n (s ++ (c ∷ [])) ≡ value_of n s * 10 + (c - 48)
unfolding value_of
value_of-append n [] c = refl
value_of-append n (d ∷ s) c = value_of-append (n * 10 + (d - 48)) s c

value_of-decimal : (fuel n : ℕ) → n < fuel → value_of 0 (decimal fuel n) ≡ n
unfolding value_of decimal
value_of-decimal zero n h = absurd (omega arith)
value_of-decimal (suc fuel) n h = elim (Bool-cases (ltb n 10)) [
  | inl small ↦ rw small (ground arith)
  | inr large ↦
      rw
        (
          large,
          value_of-append 0 (decimal fuel (n / 10)) (48 + n % 10),
          value_of-decimal fuel (n / 10) (ground arith),
        )
        (omega arith)
]

strip_prefix-of : (p s : Text) → strip_prefix p (p ++ s) ≡ some s
strip_prefix-of [] s = refl
strip_prefix-of (c ∷ p) s = rw (eq→== c c refl) (strip_prefix-of p s)

-- Two numbers print the same digits only if they are the same.
decimal-injective : (m n : ℕ) → decimal (suc m) m ≡ decimal (suc n) n → m ≡ n
decimal-injective m n h =
    sym (value_of-decimal (suc m) m (omega arith))
    ∙ ap (value_of 0) h
    ∙ value_of-decimal (suc n) n (omega arith)

numbered-injective : (base : Text) (m n : ℕ) → numbered base m ≡ numbered base n → m ≡ n
unfolding numbered
numbered-injective base m n h =
    let same : some (dash ∷ decimal (suc m) m) ≡ some (dash ∷ decimal (suc n) n) =
      sym (strip_prefix-of base (dash ∷ decimal (suc m) m))
      ∙ ap (strip_prefix base) h
      ∙ strip_prefix-of base (dash ∷ decimal (suc n) n) in
    decimal-injective m n cc

pub numbered-differs :
    (base : Text) (m n : ℕ) → m < n → text_eq (numbered base m) (numbered base n) ≡ false
numbered-differs base m n h = elim (Bool-cases (text_eq (numbered base m) (numbered base n))) [
  | inl same ↦
      let m_n : m ≡ n = numbered-injective base m n (text_eq→≡ _ _ same) in absurd (omega arith)
  | inr other ↦ other
]

longer-differs : (base s : Text) (c : ℕ) → text_eq base (base ++ (c ∷ s)) ≡ false
longer-differs [] s c = refl
longer-differs (d ∷ base) s c = rw (eq→== d d refl) (longer-differs base s c)

pub base-differs : (base : Text) (n : ℕ) → text_eq base (numbered base n) ≡ false
unfolding numbered
base-differs base n = longer-differs base (decimal (suc n) n) dash
