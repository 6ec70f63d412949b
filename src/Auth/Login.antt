-- ===== src/Auth/Login.antt =====
-- Registration, login and the lock on an account (src/services/auth/auth.service.ts and
-- login-guard.service.ts).
pub mod Guard
pub mod Laws
pub mod Rotation
use Prim.Native.String.{String}
use e_commerce_nodejs.Base.{
  ℕ, suc, Bool, true, false, not, ◌&&◌, ◌||◌, Option, none, some, List, [], ◌∷◌, find_by, or_else,
  is_some, ◌==◌, if◌then◌else◌,
}
use e_commerce_nodejs.Base.Texts.{Text, text_eq}
use e_commerce_nodejs.Store.{
  ApiError, Result, ok, err, bad_request, unauthorized, forbidden, not_found, conflict, Act, pure,
  throw, throw_if, gets, or_throw, ◌>>=◌, ◌>>◌, update_row,
}
use e_commerce_nodejs.Auth.Identifier.{
  IdentifierChannel, sms, email, detect_identifier_channel, normalize_identifier,
}
use e_commerce_nodejs.Auth.Rows.{
  OtpPurpose, User, UserSession, Accounts, users, sessions, Env, Request,
}
use e_commerce_nodejs.Auth.Otp.{returned, issue_otp, verify_otp}
use e_commerce_nodejs.Auth.Sessions.{
  IssuedTokens, is_session, create_session_and_tokens, revoke_session, revoke_all_sessions,
}
use e_commerce_nodejs.Auth.Login.Guard.{assert_not_locked_out, record_login_attempt}

abbrev pub has_text : Option Text → Text → Bool
has_text none t = false
has_text (some u) t = text_eq u t

-- `findUnique` by the column of the channel.
abbrev pub is_user_of : IdentifierChannel → Text → User → Bool
is_user_of sms identifier u = has_text u.phone identifier
is_user_of email identifier u = has_text u.email identifier

abbrev pub find_user_of : IdentifierChannel → Text → Accounts → Option User
find_user_of channel identifier s = find_by (is_user_of channel identifier) s.users

abbrev pub is_user : ℕ → User → Bool
is_user id u = u.id == id

abbrev pub blocked : User → ApiError
blocked u = forbidden (or_else u.blocked_reason "the account is blocked")

-- `{ [column]: identifier }`, for one of the two columns.
abbrev pub email_of : IdentifierChannel → Text → Option Text
email_of sms identifier = none
email_of email identifier = some identifier

abbrev pub phone_of : IdentifierChannel → Text → Option Text
phone_of sms identifier = some identifier
phone_of email identifier = none

abbrev pub verified : IdentifierChannel → ℕ → User → User
verified sms now u = record u { phone_verified_at = some now }
verified email now u = record u { email_verified_at = some now }

-- `prisma.user.create`, with a wallet; the two columns are unique.
unfoldable pub create_user : (ℕ → User) → Act Accounts User
create_user make s =
    let u = make s.user_seq in
    (
      ok u,
      record s {
        users = u ∷ s.users;
        user_seq = suc s.user_seq;
        wallet_owners = s.user_seq ∷ s.wallet_owners;
      },
    )

unfoldable pub touch_last_login : Request → ℕ → Act Accounts (Unit {0})
touch_last_login req user_id =
    update_row users (is_user user_id)
      (λ u. record u { last_login_at = some req.now; last_login_ip = req.ip })

module _ (env : Env) where
  unfoldable pub find_user_by_identifier : Text → Act Accounts (Option User)
  find_user_by_identifier raw = do
    channel ← returned (detect_identifier_channel raw)
    identifier ← returned (normalize_identifier env.to_lower_case raw)
    gets (find_user_of channel identifier)

  unfoldable pub register :
      Request → Option String → Text → Text → Act Accounts (Text × IdentifierChannel)
  register req full_name raw password = do
    channel ← returned (detect_identifier_channel raw)
    identifier ← returned (normalize_identifier env.to_lower_case raw)
    existing ← gets (find_user_of channel identifier)
    throw_if (is_some existing) (conflict "the user is registered")
    user ← create_user (λ id. record {
      id = id;
      full_name = full_name;
      email = email_of channel identifier;
      phone = phone_of channel identifier;
      password = some (env.hash_password password);
      role = "CUSTOMER";
      is_blocked = false;
      blocked_reason = none;
      phone_verified_at = none;
      email_verified_at = none;
      last_login_at = none;
      last_login_ip = none;
    })
    issue_otp env req identifier OtpPurpose.register (some user.id)

  unfoldable pub sign_in : Request → User → Act Accounts IssuedTokens
  sign_in req user = do
    tokens ← create_session_and_tokens env req user.id user.role
    touch_last_login req user.id
    pure tokens

  -- The user of a verified code.
  unfoldable pub verified_user :
      Request → Text → Text → OtpPurpose → Act Accounts (IdentifierChannel × User)
  verified_user req raw code purpose = do
    (identifier, channel) ← verify_otp env req raw code purpose
    found ← gets (find_user_of channel identifier)
    user ← or_throw found (not_found "no user of this code")
    pure (channel, user)

  unfoldable pub verify_register_otp : Request → Text → Text → Act Accounts IssuedTokens
  verify_register_otp req raw code = do
    (channel, user) ← verified_user req raw code OtpPurpose.register
    update_row users (is_user user.id) (verified channel req.now)
    sign_in req user

  -- `fail(message)`: the attempt is written, and the request refused.
  unfoldable pub fail : Request → Text → Option ℕ → Act Accounts IssuedTokens
  fail req identifier user_id = do
    record_login_attempt env req identifier user_id false
    throw (bad_request "wrong identifier or password")

  unfoldable pub login_matching : Request → Text → Text → User → Text → Act Accounts IssuedTokens
  login_matching req identifier password user hash =
      if env.compare_password password hash
      then (do record_login_attempt env req identifier (some user.id) true; sign_in req user)
      else fail req identifier (some user.id)

  unfoldable pub login_user : Request → Text → Text → Option User → Act Accounts IssuedTokens
  login_user req identifier password none = fail req identifier none
  login_user req identifier password (some user) = elim user.password [
    | none ↦ fail req identifier (some user.id)
    | some hash ↦ do
      throw_if user.is_blocked (blocked user)
      login_matching req identifier password user hash
  ]

  unfoldable pub login : Request → Text → Text → Act Accounts IssuedTokens
  login req raw password = do
    identifier ← returned (normalize_identifier env.to_lower_case raw)
    assert_not_locked_out env req identifier
    user ← find_user_by_identifier raw
    login_user req identifier password user

  unfoldable pub request_login_otp : Request → Text → Act Accounts (Text × IdentifierChannel)
  request_login_otp req raw = do
    found ← find_user_by_identifier raw
    user ← or_throw found (not_found "no such user")
    throw_if user.is_blocked (blocked user)
    issue_otp env req raw OtpPurpose.login (some user.id)

  unfoldable pub verify_login_otp : Request → Text → Text → Act Accounts IssuedTokens
  verify_login_otp req raw code = do
    (channel, user) ← verified_user req raw code OtpPurpose.login
    throw_if user.is_blocked (blocked user)
    sign_in req user

  -- A refresh token is of an active session of its user, and of no older one.
  abbrev pub is_current : Text → ℕ → UserSession → Bool
  is_current raw user_id session =
      session.is_active && ((session.user_id == user_id) && text_eq session.token (env.sha256 raw))

  abbrev pub rotate : Request → Text → UserSession → UserSession
  rotate req token x = record x { token = token; last_activity_at = req.now }

  unfoldable pub refresh_session : Request → Text → ℕ → ℕ → Act Accounts IssuedTokens
  refresh_session req raw user_id session_id = do
    found ← gets (λ s. find_by (is_session session_id) s.sessions)
    session ← or_throw found (unauthorized "the session is revoked")
    throw_if (not (is_current raw user_id session)) (unauthorized "the session is revoked")
    holder ← gets (λ s. find_by (is_user user_id) s.users)
    user ← or_throw holder (unauthorized "the account is revoked")
    throw_if user.is_blocked (unauthorized "the account is revoked")
    let refresh_token = env.sign_refresh_token req.now user.id session.id
    update_row sessions (is_session session.id) (rotate req (env.sha256 refresh_token))
    pure record {
      access_token = env.sign_access_token req.now user.role user.id session.id;
      refresh_token = refresh_token;
      session_id = session.id;
    }

  -- `verifyRefreshToken` throws on a token that is forged or too old.
  unfoldable pub refresh_payload : Request → Text → Option (ℕ × ℕ) → Act Accounts IssuedTokens
  refresh_payload req raw none = throw (unauthorized "the refresh token is invalid")
  refresh_payload req raw (some (user_id, session_id)) = refresh_session req raw user_id session_id

  unfoldable pub refresh_tokens : Request → Text → Act Accounts IssuedTokens
  refresh_tokens req raw = refresh_payload req raw (env.verify_refresh_token req.now raw)

  unfoldable pub forgot_password : Request → Text → Act Accounts (Text × IdentifierChannel)
  forgot_password req raw = do
    found ← find_user_by_identifier raw
    user ← or_throw found (not_found "no such user")
    issue_otp env req raw OtpPurpose.reset_password (some user.id)

  abbrev pub set_password : Text → User → User
  set_password hash u = record u { password = some hash }

  unfoldable pub reset_password : Request → Text → Text → Text → Act Accounts (Unit {0})
  reset_password req raw code new_password = do
    (_, user) ← verified_user req raw code OtpPurpose.reset_password
    update_row users (is_user user.id) (set_password (env.hash_password new_password))
    revoke_all_sessions user.id none

unfoldable pub logout : ℕ → Act Accounts (Unit {0})
logout session_id = revoke_session session_id

unfoldable pub logout_all_devices : ℕ → ℕ → Act Accounts (Unit {0})
logout_all_devices user_id current_session_id =
    revoke_all_sessions user_id (some current_session_id)
