-- ===== src/Auth/Bounds.antt =====
-- Sequences of the calls of src/services/auth/auth.service.ts, and the sessions that they leave active.
pub mod Codes
pub mod Services
use Prim.Native.String.{String}
use e_commerce_nodejs.Base.{
  ℕ, refl, arith, Bool, true, false, not, ◌&&◌, Option, none, some, List, [], ◌∷◌, if◌then◌else◌,
  ◌==◌, and_false,
}
use e_commerce_nodejs.Base.Texts.{Text}
use e_commerce_nodejs.Store.{
  Result, ok, err, Act, Preserves, preserves_rules, table_rules, update_row-Preserves,
  create_row-Preserves, update_row, create_row, ◌>>=◌, ◌>>◌, throw_if, count_rows-kept,
}
use e_commerce_nodejs.Auth.Identifier.{IdentifierChannel}
use e_commerce_nodejs.Auth.Rows.{
  OtpPurpose, OtpCode, User, LoginAttempt, Accounts, users, otp_codes, sessions, login_attempts,
  Env, Request,
}
use e_commerce_nodejs.Auth.Otp.{
  returned, assert_not_in_cooldown, start_resend_cooldown, create_otp, issue_otp, reject_code,
  compare_code, check_otp, verify_otp,
}
use e_commerce_nodejs.Auth.Sessions.{IssuedTokens, is_session, is_active_of}
use e_commerce_nodejs.Auth.Sessions.Laws.{
  SessionsBounded, create_session_and_tokens-Preserves, revoke_session-Preserves,
  revoke_all_sessions-Preserves,
}
use e_commerce_nodejs.Auth.Login.Guard.{assert_not_locked_out, count_failure, record_login_attempt}
use e_commerce_nodejs.Auth.Login.{
  create_user, touch_last_login, find_user_by_identifier, register, sign_in, verified_user,
  verify_register_otp, fail, login_matching, login_user, blocked, login, request_login_otp,
  verify_login_otp, rotate, refresh_session, refresh_payload, refresh_tokens, forgot_password,
  reset_password, logout, logout_all_devices,
}
use e_commerce_nodejs.Auth.Bounds.Services.{
  touch_last_login-Preserves, sign_in-Preserves, verified_user-Preserves,
  find_user_by_identifier-Preserves, record_login_attempt-Preserves, fail-Preserves,
  login_matching-Preserves, login_user-Preserves, login-Preserves, register-Preserves,
  verify_register_otp-Preserves, request_login_otp-Preserves, verify_login_otp-Preserves,
  refresh_session-Preserves, refresh_payload-Preserves, refresh_tokens-Preserves,
  forgot_password-Preserves, reset_password-Preserves,
}

-- The requests that reach the service.
pub data AuthCall : Type 0 where
  call_register : Option String → Text → Text → AuthCall
  call_verify_register : Text → Text → AuthCall
  call_login : Text → Text → AuthCall
  call_request_login_otp : Text → AuthCall
  call_verify_login_otp : Text → Text → AuthCall
  call_refresh : Text → AuthCall
  call_logout : ℕ → AuthCall
  call_logout_all : ℕ → ℕ → AuthCall
  call_forgot_password : Text → AuthCall
  call_reset_password : Text → Text → Text → AuthCall

-- The accounts after a call, whether it returns or throws.
unfoldable pub after_call : Env → Request → AuthCall → Accounts → Accounts
after_call env req (call_register full_name raw password) s =
    (register env req full_name raw password s).1
after_call env req (call_verify_register raw code) s = (verify_register_otp env req raw code s).1
after_call env req (call_login raw password) s = (login env req raw password s).1
after_call env req (call_request_login_otp raw) s = (request_login_otp env req raw s).1
after_call env req (call_verify_login_otp raw code) s = (verify_login_otp env req raw code s).1
after_call env req (call_refresh raw) s = (refresh_tokens env req raw s).1
after_call env req (call_logout id) s = (logout id s).1
after_call env req (call_logout_all user_id id) s = (logout_all_devices user_id id s).1
after_call env req (call_forgot_password raw) s = (forgot_password env req raw s).1
after_call env req (call_reset_password raw code new_password) s =
    (reset_password env req raw code new_password s).1

unfoldable pub after_calls : Env → List (Request × AuthCall) → Accounts → Accounts
after_calls env [] s = s
after_calls env (c ∷ cs) s = after_calls env cs (after_call env c.0 c.1 s)

after_call-SessionsBounded :
    (env : Env) (req : Request) (c : AuthCall) (s : Accounts)
    → SessionsBounded env s
    → SessionsBounded env (after_call env req c s)
unfolding after_call logout logout_all_devices
after_call-SessionsBounded env req (call_register n raw p) s h =
    (register-Preserves env req n raw p).run s h
after_call-SessionsBounded env req (call_verify_register raw c) s h =
    (verify_register_otp-Preserves env req raw c).run s h
after_call-SessionsBounded env req (call_login raw p) s h = (login-Preserves env req raw p).run s h
after_call-SessionsBounded env req (call_request_login_otp raw) s h =
    (request_login_otp-Preserves env req raw).run s h
after_call-SessionsBounded env req (call_verify_login_otp raw c) s h =
    (verify_login_otp-Preserves env req raw c).run s h
after_call-SessionsBounded env req (call_refresh raw) s h =
    (refresh_tokens-Preserves env req raw).run s h
after_call-SessionsBounded env req (call_logout id) s h = (revoke_session-Preserves env id).run s h
after_call-SessionsBounded env req (call_logout_all u id) s h =
    (revoke_all_sessions-Preserves env u (some id)).run s h
after_call-SessionsBounded env req (call_forgot_password raw) s h =
    (forgot_password-Preserves env req raw).run s h
after_call-SessionsBounded env req (call_reset_password raw c p) s h =
    (reset_password-Preserves env req raw c p).run s h

-- After any requests, in any order and at any times, no user has more than `MAX_ACTIVE_SESSIONS`
-- active sessions, one where that is 0, when that held at the start.
pub after_calls-SessionsBounded :
    (env : Env) (cs : List (Request × AuthCall)) (s : Accounts)
    → SessionsBounded env s
    → SessionsBounded env (after_calls env cs s)
unfolding after_calls
after_calls-SessionsBounded env [] s h = h
after_calls-SessionsBounded env (c ∷ cs) s h =
    after_calls-SessionsBounded env cs _ (after_call-SessionsBounded env c.0 c.1 s h)
