-- ===== src/Auth/Otp/Laws.antt =====
-- What a one-time code allows (src/services/otp/otp.service.ts).
use e_commerce_nodejs.Base.{
  ℕ, and_false, ◌+◌, ◌≤◌, ◌<◌, ◌≡◌, refl, arith, true, false, Bool-cases, Option-cases, inl, inr,
  eq→==, Option, some, List, [], ◌∷◌, All, length, find_by, ltb, leb,
}
use e_commerce_nodejs.Base.Texts.{Text, text_eq, text_eq→≡}
use e_commerce_nodejs.Store.{
  ApiError, Result, ok, err, bad_request, too_many, Returns, pure, throw, throw_if, gets, or_throw,
  ◌>>=◌, update_row, count_rows, find_by-update, find_by-any, count_rows-dropped,
}
use e_commerce_nodejs.Auth.Identifier.{IdentifierChannel, normalize_identifier}
use e_commerce_nodejs.Auth.Rows.{OtpPurpose, OtpCode, Accounts, Env, Request}
use e_commerce_nodejs.Auth.Otp.{
  is_for, is_open, has_id, add_attempt, use_up, returned, reject_code, compare_code, check_otp,
  verify_otp,
}

-- The newest open code of an identifier and a purpose.
abbrev pub current : Text → OtpPurpose → Accounts → Option OtpCode
current identifier purpose s = find_by (is_open identifier purpose) s.otp_codes

module _ (env : Env) (raw identifier : Text) (purpose : OtpPurpose)
    (normal : normalize_identifier env.to_lower_case raw ≡ ok identifier) where
  -- A wrong code that is counted leaves the code current, with one attempt more.
  wrong_counted :
      (req : Request) (code : Text) (s : Accounts) (o : OtpCode)
      → current identifier purpose s ≡ some o
      → ltb o.expires_at req.now ≡ false
      → leb env.otp_max_verify_attempts o.attempts ≡ false
      → text_eq o.code code ≡ false
      → current identifier purpose (verify_otp env req raw code purpose s).1 ≡ some (add_attempt o)
  unfolding verify_otp check_otp compare_code reject_code returned gets or_throw throw_if throw
      update_row ◌>>=◌
  wrong_counted req code s o found alive left wrong =
      rw
        (
          normal,
          found,
          alive,
          left,
          wrong,
          find_by-any (is_open identifier purpose) (has_id o.id) o s.otp_codes found
              (eq→== o.id o.id refl),
        )
        (find_by-update (is_open identifier purpose) (has_id o.id) (add_attempt) o s.otp_codes
          (λ x. refl) found (eq→== o.id o.id refl))

  -- A code with no attempts left is refused whatever is tried.
  exhausted_refused :
      (req : Request) (code : Text) (s : Accounts) (o : OtpCode)
      → current identifier purpose s ≡ some o
      → leb env.otp_max_verify_attempts o.attempts ≡ true
      → (e : ApiError) × (verify_otp env req raw code purpose s ≡ (err e, s))
  unfolding verify_otp check_otp returned gets or_throw throw_if ◌>>=◌
  exhausted_refused req code s o found none_left = elim (Bool-cases (ltb o.expires_at req.now)) [
    | inl late ↦ (bad_request "the code has expired", rw (normal, found, late) refl)
    | inr alive ↦ (too_many "no attempts left", rw (normal, found, alive, none_left) refl)
  ]

  -- Codes tried one after the other, each with its own time.
  abbrev pub try_codes : List (Request × Text) → Accounts → Accounts
  try_codes [] s = s
  try_codes (t ∷ ts) s = try_codes ts (verify_otp env t.0 raw t.1 purpose s).1

  -- A try of a wrong code while the code is valid.
  abbrev pub IsWrongTry : OtpCode → Request × Text → Type 0
  IsWrongTry o t = (text_eq o.code t.1 ≡ false) × (ltb o.expires_at t.0.now ≡ false)

  abbrev pub Refused : Request → Text → Accounts → Type 0
  Refused req code s = (e : ApiError) × (verify_otp env req raw code purpose s ≡ (err e, s))

  exhausted_kept :
      (ts : List (Request × Text)) (req : Request) (code : Text) (s : Accounts) (o : OtpCode)
      → current identifier purpose s ≡ some o
      → leb env.otp_max_verify_attempts o.attempts ≡ true
      → Refused req code (try_codes ts s)
  exhausted_kept [] req code s o found none_left = exhausted_refused req code s o found none_left
  exhausted_kept (t ∷ ts) req code s o found none_left =
      let (e, same) = exhausted_refused t.0 t.1 s o found none_left in
      rw same (exhausted_kept ts req code s o found none_left)

  -- A code that has seen as many wrong tries as are allowed, each of them in time, is refused from then
  -- on, whatever is tried, the right code included.
  pub tries-Refused :
      (ts : List (Request × Text)) (req : Request) (code : Text) (s : Accounts) (o : OtpCode)
      → current identifier purpose s ≡ some o
      → All (IsWrongTry o) ts
      → env.otp_max_verify_attempts ≤ o.attempts + length ts
      → Refused req code (try_codes ts s)
  tries-Refused [] req code s o found wrong enough =
      exhausted_refused req code s o found (ground arith)
  tries-Refused (t ∷ ts) req code s o found wrong enough =
      elim (Bool-cases (leb env.otp_max_verify_attempts o.attempts)) [
        | inl none_left ↦ exhausted_kept (t ∷ ts) req code s o found none_left
        | inr left ↦
            tries-Refused ts req code _ (add_attempt o)
              (wrong_counted t.0 t.1 s o found wrong.0.1 left wrong.0.0) wrong.1 (omega arith)
      ]

-- The codes that are still open for an identifier and a purpose.
abbrev pub open_codes : Text → OtpPurpose → Accounts → ℕ
open_codes identifier purpose s = count_rows (is_open identifier purpose) s.otp_codes

-- A code was accepted: it was the current one, spelled right, in time, with attempts left, and it is
-- spent; the users are as they were.
pub record Accepted (env : Env) (req : Request) (code : Text) (purpose : OtpPurpose)
    (before : Accounts) (r : Text × IdentifierChannel) (after : Accounts) : Type 0 where
  pub otp : OtpCode
  pub newest : current r.0 purpose before ≡ some otp
  pub channel : r.1 ≡ otp.channel
  pub right : otp.code ≡ code
  pub in_time : req.now ≤ otp.expires_at
  pub attempts_left : otp.attempts < env.otp_max_verify_attempts
  pub spent : open_codes r.0 purpose after < open_codes r.0 purpose before
  pub users_kept : after.users ≡ before.users

use_up_spent :
    (identifier : Text) (purpose : OtpPurpose) (o : OtpCode)
    → is_open identifier purpose (use_up o) ≡ false
use_up_spent identifier purpose o = and_false (is_for identifier purpose o)

module _ (env : Env) (req : Request) (raw code : Text) (purpose : OtpPurpose) (s : Accounts) where
  accepted :
      (identifier : Text)
      → normalize_identifier env.to_lower_case raw ≡ ok identifier
      → Returns (Accepted env req code purpose s) (verify_otp env req raw code purpose s)
  unfolding verify_otp check_otp compare_code reject_code returned gets or_throw throw_if throw pure
      update_row ◌>>=◌
  accepted identifier normal = elim (Option-cases (current identifier purpose s)) [
    | inl missing ↦ rw (normal, missing) tt
    | inr (o, found) ↦ elim (Bool-cases (ltb o.expires_at req.now)) [
      | inl late ↦ rw (normal, found, late) tt
      | inr alive ↦ elim (Bool-cases (leb env.otp_max_verify_attempts o.attempts)) [
        | inl spent ↦ rw (normal, found, alive, spent) tt
        | inr left ↦ elim (Bool-cases (text_eq o.code code)) [
          | inl right ↦
              rw
                (
                  normal,
                  found,
                  alive,
                  left,
                  right,
                  find_by-any (is_open identifier purpose) (has_id o.id) o s.otp_codes found
                      (eq→== o.id o.id refl),
                )
                record {
                  otp = o;
                  newest = found;
                  channel = refl;
                  right = text_eq→≡ o.code code right;
                  in_time = ground arith;
                  attempts_left = ground arith;
                  spent =
                      count_rows-dropped (is_open identifier purpose) (has_id o.id) use_up o
                        s.otp_codes (use_up_spent identifier purpose) found (eq→== o.id o.id refl);
                  users_kept = refl;
                }
          | inr wrong ↦
              rw
                (
                  normal,
                  found,
                  alive,
                  left,
                  wrong,
                  find_by-any (is_open identifier purpose) (has_id o.id) o s.otp_codes found
                      (eq→== o.id o.id refl),
                )
                tt
        ]
      ]
    ]
  ]

  normalized :
      (n : Result Text)
      → normalize_identifier env.to_lower_case raw ≡ n
      → Returns (Accepted env req code purpose s) (verify_otp env req raw code purpose s)
  unfolding verify_otp returned ◌>>=◌
  normalized (ok identifier) e = accepted identifier e
  normalized (err d) e = rw e tt

  -- A code verifies only if it is the newest unused one of its identifier and purpose, is spelled right,
  -- is in time and has attempts left; and it is spent by that: fewer codes are left to verify.
  pub verify_otp-Accepted :
      Returns (Accepted env req code purpose s) (verify_otp env req raw code purpose s)
  verify_otp-Accepted = normalized _ refl
