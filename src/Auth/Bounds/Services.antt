-- ===== src/Auth/Bounds/Services.antt =====
-- Every service of src/services/auth/auth.service.ts keeps the bound on sessions.
use Prim.Native.String.{String}
use e_commerce_nodejs.Base.{ℕ, Bool, Option, none, some}
use e_commerce_nodejs.Base.Texts.{Text}
use e_commerce_nodejs.Store.{Preserves, ◌>>◌, throw_if}
use e_commerce_nodejs.Auth.Rows.{OtpPurpose, User, Env, Request}
use e_commerce_nodejs.Auth.Sessions.Laws.{SessionsBounded}
use e_commerce_nodejs.Auth.Login.Guard.{assert_not_locked_out, record_login_attempt}
use e_commerce_nodejs.Auth.Login.{
  touch_last_login, find_user_by_identifier, register, sign_in, verified_user, verify_register_otp,
  fail, login_matching, login_user, blocked, login, request_login_otp, verify_login_otp,
  refresh_session, refresh_payload, refresh_tokens, forgot_password, reset_password,
}
use e_commerce_nodejs.Auth.Bounds.Codes.{issue_otp-Preserves, verify_otp-Preserves, local_rules}

module _ (env : Env) where
  pub touch_last_login-Preserves :
      (req : Request) (user_id : ℕ) → Preserves (SessionsBounded env) (touch_last_login req user_id)
  unfolding touch_last_login
  touch_last_login-Preserves req user_id = search (local_rules)

  pub sign_in-Preserves :
      (req : Request) (user : User) → Preserves (SessionsBounded env) (sign_in env req user)
  unfolding sign_in
  sign_in-Preserves req user = search (local_rules, touch_last_login-Preserves) depth 40

  pub verified_user-Preserves :
      (req : Request) (raw code : Text) (purpose : OtpPurpose)
      → Preserves (SessionsBounded env) (verified_user env req raw code purpose)
  unfolding verified_user
  verified_user-Preserves req raw code purpose = search (local_rules, verify_otp-Preserves) depth 40

  pub find_user_by_identifier-Preserves :
      (raw : Text) → Preserves (SessionsBounded env) (find_user_by_identifier env raw)
  unfolding find_user_by_identifier
  find_user_by_identifier-Preserves raw = search (local_rules) depth 40

  pub record_login_attempt-Preserves :
      (req : Request) (identifier : Text) (user_id : Option ℕ) (is_successful : Bool)
      → Preserves
          (SessionsBounded env)
          (record_login_attempt env req identifier user_id is_successful)
  unfolding record_login_attempt
  record_login_attempt-Preserves req identifier user_id is_successful =
      search (local_rules) depth 40

  ruleset service_rules = (
    local_rules, issue_otp-Preserves, sign_in-Preserves, verified_user-Preserves,
    find_user_by_identifier-Preserves, record_login_attempt-Preserves,
  )

  pub fail-Preserves :
      (req : Request) (identifier : Text) (user_id : Option ℕ)
      → Preserves (SessionsBounded env) (fail env req identifier user_id)
  unfolding fail
  fail-Preserves req identifier user_id = search (service_rules) depth 40

  pub login_matching-Preserves :
      (req : Request) (identifier password : Text) (user : User) (hash : Text)
      → Preserves (SessionsBounded env) (login_matching env req identifier password user hash)
  unfolding login_matching
  login_matching-Preserves req identifier password user hash =
      search (service_rules, fail-Preserves) depth 40

  pub login_user-Preserves :
      (req : Request) (identifier password : Text) (user : Option User)
      → Preserves (SessionsBounded env) (login_user env req identifier password user)
  unfolding login_user
  login_user-Preserves req identifier password none = fail-Preserves req identifier none
  login_user-Preserves req identifier password (some user) =
      elim user.password
        as (λ (p : Option Text). Preserves (SessionsBounded env) (elim p [
          | none ↦ fail env req identifier (some user.id)
          | some hash ↦
              throw_if user.is_blocked (blocked user)
              >> login_matching env req identifier password user hash
        ])) [
          | none ↦ fail-Preserves req identifier (some user.id)
          | some hash ↦ search (service_rules, login_matching-Preserves) depth 40
        ]

  pub login-Preserves :
      (req : Request) (raw password : Text)
      → Preserves (SessionsBounded env) (login env req raw password)
  unfolding login assert_not_locked_out
  login-Preserves req raw password = search (service_rules, login_user-Preserves) depth 40

  pub register-Preserves :
      (req : Request) (full_name : Option String) (raw password : Text)
      → Preserves (SessionsBounded env) (register env req full_name raw password)
  unfolding register
  register-Preserves req full_name raw password = search (service_rules) depth 40

  pub verify_register_otp-Preserves :
      (req : Request) (raw code : Text)
      → Preserves (SessionsBounded env) (verify_register_otp env req raw code)
  unfolding verify_register_otp
  verify_register_otp-Preserves req raw code = search (service_rules) depth 40

  pub request_login_otp-Preserves :
      (req : Request) (raw : Text) → Preserves (SessionsBounded env) (request_login_otp env req raw)
  unfolding request_login_otp
  request_login_otp-Preserves req raw = search (service_rules) depth 40

  pub verify_login_otp-Preserves :
      (req : Request) (raw code : Text)
      → Preserves (SessionsBounded env) (verify_login_otp env req raw code)
  unfolding verify_login_otp
  verify_login_otp-Preserves req raw code = search (service_rules) depth 40

  pub refresh_session-Preserves :
      (req : Request) (raw : Text) (user_id session_id : ℕ)
      → Preserves (SessionsBounded env) (refresh_session env req raw user_id session_id)
  unfolding refresh_session
  refresh_session-Preserves req raw user_id session_id = search (service_rules) depth 50

  pub refresh_payload-Preserves :
      (req : Request) (raw : Text) (payload : Option (ℕ × ℕ))
      → Preserves (SessionsBounded env) (refresh_payload env req raw payload)
  unfolding refresh_payload
  refresh_payload-Preserves req raw none = search (service_rules)
  refresh_payload-Preserves req raw (some (user_id, session_id)) =
      refresh_session-Preserves req raw user_id session_id

  pub refresh_tokens-Preserves :
      (req : Request) (raw : Text) → Preserves (SessionsBounded env) (refresh_tokens env req raw)
  unfolding refresh_tokens
  refresh_tokens-Preserves req raw = refresh_payload-Preserves req raw _

  pub forgot_password-Preserves :
      (req : Request) (raw : Text) → Preserves (SessionsBounded env) (forgot_password env req raw)
  unfolding forgot_password
  forgot_password-Preserves req raw = search (service_rules) depth 40

  pub reset_password-Preserves :
      (req : Request) (raw code new_password : Text)
      → Preserves (SessionsBounded env) (reset_password env req raw code new_password)
  unfolding reset_password
  reset_password-Preserves req raw code new_password = search (service_rules) depth 40
