-- ===== src/Auth/Bounds/Codes.antt =====
-- What the statements and the one-time codes of accounts leave of the bound on sessions.
use e_commerce_nodejs.Base.{ℕ, refl, arith, Bool, Option}
use e_commerce_nodejs.Base.Texts.{Text}
use e_commerce_nodejs.Store.{
  Result, ok, err, Act, Preserves, preserves_rules, table_rules, update_row-Preserves,
  create_row-Preserves, update_row, create_row, ◌>>=◌, ◌>>◌, throw_if, count_rows-kept,
}
use e_commerce_nodejs.Auth.Identifier.{IdentifierChannel}
use e_commerce_nodejs.Auth.Rows.{
  OtpPurpose, OtpCode, User, LoginAttempt, users, otp_codes, sessions, login_attempts, Env, Request,
}
use e_commerce_nodejs.Auth.Otp.{
  returned, assert_not_in_cooldown, start_resend_cooldown, create_otp, issue_otp, reject_code,
  compare_code, check_otp, verify_otp,
}
use e_commerce_nodejs.Auth.Sessions.{is_session, is_active_of}
use e_commerce_nodejs.Auth.Sessions.Laws.{
  SessionsBounded, create_session_and_tokens-Preserves, revoke_session-Preserves,
  revoke_all_sessions-Preserves,
}
use e_commerce_nodejs.Auth.Login.Guard.{count_failure}
use e_commerce_nodejs.Auth.Login.{create_user, rotate}

module _ (env : Env) where
  pub returned-Preserves :
      {A : Type 0} (r : Result A) → Preserves (SessionsBounded env) (returned r)
  unfolding returned
  returned-Preserves r = record { run = λ s h. h }

  pub update_users-Preserves :
      (p : User → Bool) (f : User → User) → Preserves (SessionsBounded env) (update_row users p f)
  update_users-Preserves p f = update_row-Preserves users p f (λ s h. h)

  pub update_codes-Preserves :
      (p : OtpCode → Bool) (f : OtpCode → OtpCode)
      → Preserves (SessionsBounded env) (update_row otp_codes p f)
  update_codes-Preserves p f = update_row-Preserves otp_codes p f (λ s h. h)

  pub start_resend_cooldown-Preserves :
      (req : Request) (identifier : Text) (purpose : OtpPurpose)
      → Preserves (SessionsBounded env) (start_resend_cooldown env req identifier purpose)
  unfolding start_resend_cooldown
  start_resend_cooldown-Preserves req identifier purpose = record { run = λ s h. h }

  pub create_otp-Preserves :
      (req : Request) (identifier : Text) (channel : IdentifierChannel) (purpose : OtpPurpose)
      (user_id : Option ℕ)
      → Preserves (SessionsBounded env) (create_otp env req identifier channel purpose user_id)
  unfolding create_otp
  create_otp-Preserves req identifier channel purpose user_id = record { run = λ s h. h }

  pub create_user-Preserves : (make : ℕ → User) → Preserves (SessionsBounded env) (create_user make)
  unfolding create_user
  create_user-Preserves make = record { run = λ s h. h }

  pub count_failure-Preserves :
      (req : Request) (identifier : Text)
      → Preserves (SessionsBounded env) (count_failure env req identifier)
  unfolding count_failure
  count_failure-Preserves req identifier = record { run = λ s h. h }

  pub create_attempt-Preserves :
      (a : LoginAttempt) → Preserves (SessionsBounded env) (create_row login_attempts a)
  create_attempt-Preserves a = create_row-Preserves login_attempts a (λ s h. h)

  pub rotate-Preserves :
      (req : Request) (id : ℕ) (token : Text)
      → Preserves (SessionsBounded env) (update_row sessions (is_session id) (rotate env req token))
  rotate-Preserves req id token = update_row-Preserves sessions _ _ (λ s h u.
      let kept =
        count_rows-kept (is_active_of u) (is_session id) (rotate env req token) s.sessions
          (λ x. refl) in
      omega (arith, kept, h u))

  pub ruleset local_rules = (
    preserves_rules, returned-Preserves, update_users-Preserves, update_codes-Preserves,
    create_session_and_tokens-Preserves, revoke_session-Preserves, revoke_all_sessions-Preserves,
    start_resend_cooldown-Preserves, create_otp-Preserves, create_user-Preserves,
    count_failure-Preserves, create_attempt-Preserves, rotate-Preserves,
  )

  pub assert_not_in_cooldown-Preserves :
      (req : Request) (identifier : Text) (purpose : OtpPurpose)
      → Preserves (SessionsBounded env) (assert_not_in_cooldown env req identifier purpose)
  unfolding assert_not_in_cooldown
  assert_not_in_cooldown-Preserves req identifier purpose = search (local_rules) depth 30

  pub issue_otp-Preserves :
      (req : Request) (raw : Text) (purpose : OtpPurpose) (user_id : Option ℕ)
      → Preserves (SessionsBounded env) (issue_otp env req raw purpose user_id)
  unfolding issue_otp
  issue_otp-Preserves req raw purpose user_id =
      search (local_rules, assert_not_in_cooldown-Preserves) depth 40

  pub compare_code-Preserves :
      (otp : OtpCode) (code : Text) → Preserves (SessionsBounded env) (compare_code otp code)
  unfolding compare_code reject_code
  compare_code-Preserves otp code = search (local_rules) depth 40

  pub verify_otp-Preserves :
      (req : Request) (raw code : Text) (purpose : OtpPurpose)
      → Preserves (SessionsBounded env) (verify_otp env req raw code purpose)
  unfolding verify_otp check_otp
  verify_otp-Preserves req raw code purpose = search (local_rules, compare_code-Preserves) depth 40
