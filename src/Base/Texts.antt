-- ===== src/Base/Texts.antt =====
-- A text as the list of its characters' codes, with the string operations of the source.
use Prim.Native.Nat.{ℕ}
use mathlib.Core.Path.{◌≡◌, refl}
use mathlib.Core.Logic.{inl, inr}
use mathlib.Core.Bool.{Bool, true, false, ◌&&◌, ◌||◌}
use mathlib.Core.Option.{Option, none, some}
use mathlib.Core.List.{List, [], ◌∷◌, ◌++◌}
use native.Mathlib.Omega.{arith}
use e_commerce_nodejs.Base.Tests.{leb, ◌==◌, if◌then◌else◌, Bool-cases, eq→==, ==→eq, and_true}
use e_commerce_nodejs.Base.Lists.{filter}

abbrev pub Text : Type 0
Text = List ℕ

abbrev pub text_eq : Text → Text → Bool
text_eq [] [] = true
text_eq [] (d ∷ t) = false
text_eq (c ∷ s) [] = false
text_eq (c ∷ s) (d ∷ t) = (c == d) && text_eq s t

-- `s.startsWith(prefix)`
abbrev pub starts_with : Text → Text → Bool
starts_with [] s = true
starts_with (c ∷ p) [] = false
starts_with (c ∷ p) (d ∷ s) = (c == d) && starts_with p s

-- What follows a prefix.
abbrev pub strip_prefix : Text → Text → Option Text
strip_prefix [] s = some s
strip_prefix (c ∷ p) [] = none
strip_prefix (c ∷ p) (d ∷ s) = if c == d then strip_prefix p s else none

-- A character of `\d`.
abbrev pub is_digit : ℕ → Bool
is_digit c = leb 48 c && leb c 57

-- `s.replace(/\D/g, "")`
abbrev pub digits_of : Text → Text
digits_of s = filter is_digit s

-- White space, as `trim` and `\s` see it.
abbrev pub is_space : ℕ → Bool
is_space c =
    (leb 9 c && leb c 13)
    || (c == 32)
    || (c == 160)
    || (c == 5760)
    || (leb 8192 c && leb c 8202)
    || (c == 8232)
    || (c == 8233)
    || (c == 8239)
    || (c == 8287)
    || (c == 12288)
    || (c == 65279)

abbrev pub trim_start : Text → Text
trim_start [] = []
trim_start (c ∷ s) = let rest = trim_start s in if is_space c then rest else c ∷ s

abbrev trim_end_from : ℕ → Text → Text
trim_end_from c [] = if is_space c then [] else c ∷ []
trim_end_from c (d ∷ s) = c ∷ d ∷ s

abbrev pub trim_end : Text → Text
trim_end [] = []
trim_end (c ∷ s) = trim_end_from c (trim_end s)

-- `s.trim()`
abbrev pub trim : Text → Text
trim s = trim_end (trim_start s)

-- Every character passes the test.
abbrev pub all_of_text : (ℕ → Bool) → Text → Bool
all_of_text p [] = true
all_of_text p (c ∷ s) = p c && all_of_text p s

pub text_eq_refl : (s : Text) → text_eq s s ≡ true
text_eq_refl [] = refl
text_eq_refl (c ∷ s) = rw (eq→== c c refl) (text_eq_refl s)

pub text_eq→≡ : (s t : Text) → text_eq s t ≡ true → s ≡ t
text_eq→≡ [] [] h = refl
text_eq→≡ [] (d ∷ t) h = absurd cc
text_eq→≡ (c ∷ s) [] h = absurd cc
text_eq→≡ (c ∷ s) (d ∷ t) h =
    let (same, rest) = and_true (c == d) (text_eq s t) h in
    rw (==→eq c d same, text_eq→≡ s t rest) refl

-- Nothing is dropped from a text of digits.
pub digits_of-digits : (s : Text) → all_of_text is_digit s ≡ true → digits_of s ≡ s
digits_of-digits [] h = refl
digits_of-digits (c ∷ s) h =
    let (digit, rest) = and_true (is_digit c) (all_of_text is_digit s) h in
    rw (digit, digits_of-digits s rest) refl

pub strip_prefix-append : (p t n : Text) → strip_prefix p t ≡ some n → t ≡ p ++ n
strip_prefix-append [] t n h = cc
strip_prefix-append (c ∷ p) [] n h = absurd cc
strip_prefix-append (c ∷ p) (d ∷ t) n h = elim (Bool-cases (c == d)) [
  | inl same ↦ rw (==→eq c d same, strip_prefix-append p t n (rw same at h)) refl
  | inr other ↦ let none_some : none ≡ some n = rw other at h in absurd cc
]

-- Trimming drops no digit.
space_not_digit : (c : ℕ) → is_space c ≡ true → is_digit c ≡ false
space_not_digit c h = ground arith

digits_of-trim_start : (s : Text) → digits_of (trim_start s) ≡ digits_of s
digits_of-trim_start [] = refl
digits_of-trim_start (c ∷ s) = elim (Bool-cases (is_space c)) [
  | inl space ↦ rw (space, space_not_digit c space) (digits_of-trim_start s)
  | inr other ↦ rw other refl
]

digits_of-trim_end_from : (c : ℕ) (s : Text) → digits_of (trim_end_from c s) ≡ digits_of (c ∷ s)
digits_of-trim_end_from c [] = elim (Bool-cases (is_space c)) [
  | inl space ↦ rw (space, space_not_digit c space) refl
  | inr other ↦ rw other refl
]
digits_of-trim_end_from c (d ∷ s) = refl

digits_of-trim_end : (s : Text) → digits_of (trim_end s) ≡ digits_of s
digits_of-trim_end [] = refl
digits_of-trim_end (c ∷ s) = rw (digits_of-trim_end_from c (trim_end s), digits_of-trim_end s) refl

pub digits_of-trim : (s : Text) → digits_of (trim s) ≡ digits_of s
digits_of-trim s = rw (digits_of-trim_end (trim_start s)) (digits_of-trim_start s)
