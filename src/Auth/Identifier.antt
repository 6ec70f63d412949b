-- ===== src/Auth/Identifier.antt =====
-- The identifiers of accounts (src/utils/otp.ts): an email address or an Iranian mobile number, and
-- its normal form. Lower case is the runtime's, a parameter.
pub mod Laws
use e_commerce_nodejs.Base.{
  ℕ, Bool, true, false, not, ◌&&◌, ◌||◌, Option, none, some, List, [], ◌∷◌, ◌++◌, length, drop,
  ◌==◌, if◌then◌else◌,
}
use e_commerce_nodejs.Base.Texts.{
  Text, starts_with, strip_prefix, digits_of, all_of_text, is_digit, is_space, trim,
}
use e_commerce_nodejs.Store.{Result, ok, err, internal}

pub data IdentifierChannel : Type 0 where
  email sms : IdentifierChannel

-- `[^\s@]`
abbrev is_address_char : ℕ → Bool
is_address_char c = not (is_space c) && not (c == 64)

-- `\.[^\s@]+$`
abbrev is_last_label : Text → Bool
is_last_label [] = false
is_last_label (c ∷ []) = false
is_last_label (c ∷ d ∷ s) = (c == 46) && all_of_text is_address_char (d ∷ s)

-- `[^\s@]*\.[^\s@]+$`
abbrev is_domain_rest : Text → Bool
is_domain_rest [] = false
is_domain_rest (c ∷ s) = is_last_label (c ∷ s) || (is_address_char c && is_domain_rest s)

-- `[^\s@]+\.[^\s@]+$`
abbrev is_domain : Text → Bool
is_domain [] = false
is_domain (c ∷ s) = is_address_char c && is_domain_rest s

-- `[^\s@]*@[^\s@]+\.[^\s@]+$`
abbrev pub is_address_rest : Text → Bool
is_address_rest [] = false
is_address_rest (c ∷ s) = ((c == 64) && is_domain s) || (is_address_char c && is_address_rest s)

-- `EMAIL_REGEX`
unfoldable pub is_email : Text → Bool
is_email [] = false
is_email (c ∷ s) = is_address_char c && is_address_rest s

-- `9\d{9}$`
unfoldable pub is_local : Text → Bool
is_local [] = false
is_local (c ∷ s) = (c == 57) && (all_of_text is_digit s && (length s == 9))

unfoldable pub local_option : Option Text → Bool
unfolding is_local
local_option none = false
local_option (some n) = is_local n

abbrev pub local_after : Text → Text → Bool
local_after prefix t = local_option (strip_prefix prefix t)

-- The prefixes `+98`, `0098` and `0`.
abbrev pub plus_98 : Text
plus_98 = 43 ∷ 57 ∷ 56 ∷ []

abbrev pub zero_98 : Text
zero_98 = 48 ∷ 48 ∷ 57 ∷ 56 ∷ []

abbrev pub zero_0 : Text
zero_0 = 48 ∷ []

-- `IRAN_PHONE_REGEX`
unfoldable pub is_mobile : Text → Bool
is_mobile t =
    local_after plus_98 t || local_after zero_98 t || local_after zero_0 t || local_after [] t

unfoldable pub detect_identifier_channel : Text → Result IdentifierChannel
unfolding is_email is_mobile
detect_identifier_channel identifier =
    let trimmed = trim identifier in
    if is_email trimmed
    then ok email
    else if is_mobile trimmed
    then ok sms
    else err (internal "neither an email address nor a mobile number")

abbrev pub normalize_digits : Text → Text
normalize_digits digits =
    if starts_with zero_98 digits
    then 48 ∷ drop 4 digits
    else if starts_with (57 ∷ 56 ∷ []) digits
    then 48 ∷ drop 2 digits
    else if starts_with (57 ∷ []) digits && (length digits == 10)
    then 48 ∷ digits
    else digits

unfoldable pub normalize_phone : Text → Text
normalize_phone phone = normalize_digits (digits_of phone)

module _ (to_lower_case : Text → Text) where
  unfoldable pub normalize_as : Text → Result IdentifierChannel → Result Text
  unfolding normalize_phone
  normalize_as identifier (ok email) = ok (to_lower_case (trim identifier))
  normalize_as identifier (ok sms) = ok (normalize_phone identifier)
  normalize_as identifier (err e) = err e

  unfoldable pub normalize_identifier : Text → Result Text
  unfolding detect_identifier_channel
  normalize_identifier identifier = normalize_as identifier (detect_identifier_channel identifier)
