-- ===== src/Auth/Identifier/Laws.antt =====
-- The normal form of mobile numbers (src/utils/otp.ts).
use e_commerce_nodejs.Base.{
  ℕ, and_true, ◌≡◌, refl, true, false, Bool-cases, inl, inr, ◌⊎◌, Option, none, some, [], ◌∷◌, ◌++◌,
  length, ◌==◌, ==→eq, arith, drop, ◌∙◌, ◌-◌,
}
use e_commerce_nodejs.Base.Texts.{
  Text, starts_with, strip_prefix, strip_prefix-append, digits_of-digits, digits_of-trim,
  all_of_text, is_digit, is_space, trim, trim_start, trim_end, digits_of,
}
use e_commerce_nodejs.Store.{ApiError, ok, err}
use e_commerce_nodejs.Auth.Identifier.{
  sms, email, is_local, is_email, is_address_rest, is_mobile, local_after, local_option, plus_98,
  zero_98, zero_0, detect_identifier_channel, normalize_phone, normalize_as, normalize_identifier,
}

-- A local number, `9` and nine more digits.
abbrev pub IsLocal : Text → Type 0
IsLocal n = is_local n ≡ true

IsLocal-digits : (n : Text) → IsLocal n → all_of_text is_digit n ≡ true
unfolding is_local
IsLocal-digits [] h = absurd cc
IsLocal-digits (c ∷ s) h =
    let (nine, rest) = and_true (c == 57) _ h in
    let (digits, _) = and_true (all_of_text is_digit s) _ rest in rw (==→eq c 57 nine) digits

IsLocal-length : (n : Text) → IsLocal n → length n ≡ 10
unfolding is_local
IsLocal-length [] h = absurd cc
IsLocal-length (c ∷ s) h =
    let (_, rest) = and_true (c == 57) _ h in
    let (_, nine) = and_true (all_of_text is_digit s) _ rest in
    ground (arith, ==→eq (length s) 9 nine)

IsLocal-first : (n : Text) → IsLocal n → (s : Text) × (n ≡ 57 ∷ s)
unfolding is_local
IsLocal-first [] h = absurd cc
IsLocal-first (c ∷ s) h = let (nine, _) = and_true (c == 57) _ h in (s, rw (==→eq c 57 nine) refl)

option_spelled :
    (p t : Text) (o : Option Text)
    → strip_prefix p t ≡ o
    → local_option o ≡ true
    → (n : Text) × (IsLocal n × (t ≡ p ++ n))
unfolding local_option
option_spelled p t none e h = absurd cc
option_spelled p t (some n) e h = (n, (h, strip_prefix-append p t n e))

local_after_spelled :
    (p t : Text) → local_after p t ≡ true → (n : Text) × (IsLocal n × (t ≡ p ++ n))
local_after_spelled p t h = option_spelled p t _ refl h

-- The digits of each spelling, and their normal form.
normalize-plus_98 : (n : Text) → IsLocal n → normalize_phone (plus_98 ++ n) ≡ 48 ∷ n
unfolding normalize_phone
normalize-plus_98 n h = rw (digits_of-digits n (IsLocal-digits n h)) refl

normalize-zero_98 : (n : Text) → IsLocal n → normalize_phone (zero_98 ++ n) ≡ 48 ∷ n
unfolding normalize_phone
normalize-zero_98 n h = rw (digits_of-digits n (IsLocal-digits n h)) refl

normalize-zero_0 : (n : Text) → IsLocal n → normalize_phone (zero_0 ++ n) ≡ 48 ∷ n
unfolding normalize_phone
normalize-zero_0 n h =
    let (s, e) = IsLocal-first n h in rw (digits_of-digits n (IsLocal-digits n h)) (rw e refl)

normalize-local :
    (n : Text) → IsLocal n → starts_with (57 ∷ 56 ∷ []) n ≡ false → normalize_phone n ≡ 48 ∷ n
unfolding normalize_phone
normalize-local n h k =
    let (s, e) = IsLocal-first n h in
    let starts : starts_with (57 ∷ []) n ≡ true = rw e refl in
    let other : starts_with zero_98 n ≡ false = rw e refl in
    rw (digits_of-digits n (IsLocal-digits n h), other, k, starts, IsLocal-length n h) refl

-- A spelling of a local number: the prefixes `+98`, `0098`, `0` and none.
spelled_mobile :
    (t : Text)
    → is_mobile t ≡ true
    → (n : Text) × (IsLocal n
        × ((t ≡ plus_98 ++ n) ⊎ ((t ≡ zero_98 ++ n) ⊎ ((t ≡ zero_0 ++ n) ⊎ (t ≡ n)))))
unfolding is_mobile local_option
spelled_mobile t h = elim (Bool-cases (local_after plus_98 t)) [
  | inl a ↦ let (n, (l, e)) = local_after_spelled plus_98 t a in (n, (l, inl e))
  | inr a ↦ elim (Bool-cases (local_after zero_98 t)) [
    | inl b ↦ let (n, (l, e)) = local_after_spelled zero_98 t b in (n, (l, inr (inl e)))
    | inr b ↦ elim (Bool-cases (local_after zero_0 t)) [
      | inl c ↦ let (n, (l, e)) = local_after_spelled zero_0 t c in (n, (l, inr (inr (inl e))))
      | inr c ↦
          let (n, (l, e)) = local_after_spelled [] t (rw (a, b, c) at h) in
          (n, (l, inr (inr (inr e))))
    ]
  ]
]

normalize_spelled :
    (t n : Text)
    → IsLocal n
    → (t ≡ plus_98 ++ n) ⊎ ((t ≡ zero_98 ++ n) ⊎ ((t ≡ zero_0 ++ n) ⊎ (t ≡ n)))
    → starts_with (57 ∷ 56 ∷ []) t ≡ false
    → normalize_phone t ≡ 48 ∷ n
normalize_spelled t n l (inl e) k = rw e (normalize-plus_98 n l)
normalize_spelled t n l (inr (inl e)) k = rw e (normalize-zero_98 n l)
normalize_spelled t n l (inr (inr (inl e))) k = rw e (normalize-zero_0 n l)
normalize_spelled t n l (inr (inr (inr e))) k = rw e (normalize-local n l (rw e at k))

normalize_phone-trim : (raw : Text) → normalize_phone raw ≡ normalize_phone (trim raw)
unfolding normalize_phone
normalize_phone-trim raw = rw (digits_of-trim raw) refl

-- The normal form is an identifier of its own.
digit_not_space : (c : ℕ) → is_digit c ≡ true → is_space c ≡ false
digit_not_space c h = ground arith

digit_not_at : (c : ℕ) → is_digit c ≡ true → (c == 64) ≡ false
digit_not_at c h = ground arith

trim_start-digits : (s : Text) → all_of_text is_digit s ≡ true → trim_start s ≡ s
trim_start-digits [] h = refl
trim_start-digits (c ∷ s) h =
    let (digit, _) = and_true (is_digit c) _ h in rw (digit_not_space c digit) refl

trim_end-digits : (s : Text) → all_of_text is_digit s ≡ true → trim_end s ≡ s
trim_end-digits [] h = refl
trim_end-digits (c ∷ []) h =
    let (digit, _) = and_true (is_digit c) _ h in rw (digit_not_space c digit) refl
trim_end-digits (c ∷ d ∷ s) h =
    let (_, rest) = and_true (is_digit c) _ h in rw (trim_end-digits (d ∷ s) rest) refl

trim-digits : (s : Text) → all_of_text is_digit s ≡ true → trim s ≡ s
trim-digits s h = rw (trim_start-digits s h) (trim_end-digits s h)

address_rest-digits : (s : Text) → all_of_text is_digit s ≡ true → is_address_rest s ≡ false
address_rest-digits [] h = refl
address_rest-digits (c ∷ s) h =
    let (digit, rest) = and_true (is_digit c) _ h in
    rw (digit_not_at c digit, digit_not_space c digit) (address_rest-digits s rest)

digits-not_email : (s : Text) → all_of_text is_digit s ≡ true → is_email s ≡ false
unfolding is_email
digits-not_email [] h = refl
digits-not_email (c ∷ s) h =
    let (digit, rest) = and_true (is_digit c) _ h in
    rw (digit_not_at c digit, digit_not_space c digit) (address_rest-digits s rest)

normal-is_mobile : (n : Text) → IsLocal n → is_mobile (48 ∷ n) ≡ true
unfolding is_mobile local_option
normal-is_mobile n l =
    let (s, e) = IsLocal-first n l in
    let l' : is_local (57 ∷ s) ≡ true = rw e at l in rw (e, l') refl

detect_normal : (n : Text) → IsLocal n → detect_identifier_channel (48 ∷ n) ≡ ok sms
unfolding detect_identifier_channel
detect_normal n l =
    let digits : all_of_text is_digit (48 ∷ n) ≡ true = IsLocal-digits n l in
    rw (trim-digits (48 ∷ n) digits, digits-not_email (48 ∷ n) digits, normal-is_mobile n l) refl

undetected : {e : ApiError} → err e ≡ ok sms → ⊥
undetected h = absurd cc

detected_mobile :
    (raw : Text) → detect_identifier_channel raw ≡ ok sms → is_mobile (trim raw) ≡ true
unfolding detect_identifier_channel
detected_mobile raw h = elim (Bool-cases (is_email (trim raw))) [
  | inl e ↦ let wrong : ok email ≡ ok sms = rw e at h in absurd cc
  | inr e ↦ elim (Bool-cases (is_mobile (trim raw))) [
    | inl m ↦ m
    | inr m ↦ absurd (undetected (rw (e, m) at h))
  ]
]

-- The last ten digits of a text.
abbrev pub last_ten : Text → Text
last_ten t = let digits = digits_of t in drop (length digits - 10) digits

last_ten-trim : (raw : Text) → last_ten raw ≡ last_ten (trim raw)
last_ten-trim raw = rw (digits_of-trim raw) refl

last_ten_spelled :
    (t n : Text)
    → IsLocal n
    → (t ≡ plus_98 ++ n) ⊎ ((t ≡ zero_98 ++ n) ⊎ ((t ≡ zero_0 ++ n) ⊎ (t ≡ n)))
    → last_ten t ≡ n
last_ten_spelled t n l (inl e) =
    rw (e, digits_of-digits n (IsLocal-digits n l), IsLocal-length n l) refl
last_ten_spelled t n l (inr (inl e)) =
    rw (e, digits_of-digits n (IsLocal-digits n l), IsLocal-length n l) refl
last_ten_spelled t n l (inr (inr (inl e))) =
    rw (e, digits_of-digits n (IsLocal-digits n l), IsLocal-length n l) refl
last_ten_spelled t n l (inr (inr (inr e))) =
    rw (e, digits_of-digits n (IsLocal-digits n l), IsLocal-length n l) refl

-- A text that is recognised as a mobile number and does not begin, after spaces, with the digits 98, has
-- as its normal form `0` and the last ten of its digits, so that all spellings of one number, with
-- +98, 0098, 0 or nothing before it, have the same; and the normal form is its own normal form.
pub normalize_identifier_mobile :
    (to_lower_case : Text → Text) (raw : Text)
    → detect_identifier_channel raw ≡ ok sms
    → starts_with (57 ∷ 56 ∷ []) (trim raw) ≡ false
    → (normalize_identifier to_lower_case raw ≡ ok (48 ∷ last_ten raw))
      × (normalize_identifier to_lower_case (48 ∷ last_ten raw) ≡ ok (48 ∷ last_ten raw))
unfolding normalize_identifier normalize_as spelled_mobile
normalize_identifier_mobile to_lower_case raw h k =
    let (n, (l, spelled)) = spelled_mobile (trim raw) (detected_mobile raw h) in
    let last : last_ten raw ≡ n = last_ten-trim raw ∙ last_ten_spelled (trim raw) n l spelled in
    rw last (
      rw (h, normalize_phone-trim raw, normalize_spelled (trim raw) n l spelled k) refl,
      rw (detect_normal n l, normalize-zero_0 n l) refl,
    )
