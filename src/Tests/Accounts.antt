-- ===== src/Tests/Accounts.antt =====
-- The theorems on accounts at the values of a small set of accounts.
use e_commerce_nodejs.Base.{ℕ, ◌/◌, ◌≡◌, refl, arith, true, false, Option, none, some, [], ◌∷◌}
use e_commerce_nodejs.Base.Texts.{Text, text_eq}
use e_commerce_nodejs.Store.{Returns, ok, err, unauthorized, update_row, ◌>>=◌}
use e_commerce_nodejs.Auth.Identifier.{
  IdentifierChannel, sms, is_email, is_mobile, is_local, local_option, detect_identifier_channel,
  normalize_phone, normalize_as, normalize_identifier,
}
use e_commerce_nodejs.Auth.Identifier.Laws.{last_ten, normalize_identifier_mobile}
use e_commerce_nodejs.Auth.Rows.{OtpPurpose, OtpCode, User, Accounts, Env, Request}
use e_commerce_nodejs.Auth.Otp.{verify_otp}
use e_commerce_nodejs.Auth.Otp.Laws.{
  Accepted, Refused, try_codes, tries-Refused, verify_otp-Accepted,
}
use e_commerce_nodejs.Auth.Sessions.Laws.{SessionsBounded, active_count}
use e_commerce_nodejs.Auth.Sessions.{IssuedTokens}
use e_commerce_nodejs.Auth.Login.{
  login, refresh_tokens, refresh_payload, refresh_session, reset_password,
}
use e_commerce_nodejs.Auth.Login.Laws.{
  LoggedIn, AcceptedFor, HasPassword, login-LoggedIn, reset_password_signs_out,
}
use e_commerce_nodejs.Auth.Login.Rotation.{refresh_tokens_once}
use e_commerce_nodejs.Auth.Bounds.{call_login, after_calls, after_calls-SessionsBounded}

-- A token is a list of what it holds.
abbrev read_token : Text → Option (ℕ × ℕ)
read_token (now ∷ user_id ∷ session_id ∷ []) = some (user_id, session_id)
read_token _ = none

abbrev sample_env : Env
sample_env = record {
  otp_expires_in_minutes = 2;
  otp_resend_cooldown_seconds = 60;
  otp_max_verify_attempts = 2;
  login_lock_window_minutes = 15;
  login_max_failed_attempts = 3;
  max_active_sessions = 2;
  to_lower_case = λ t. t;
  hash_password = λ t. 1 ∷ t;
  compare_password = λ t hash. text_eq (1 ∷ t) hash;
  sha256 = λ t. 2 ∷ t;
  sign_access_token = λ now role user_id session_id. 3 ∷ now ∷ user_id ∷ session_id ∷ [];
  sign_refresh_token = λ now user_id session_id. now ∷ user_id ∷ session_id ∷ [];
  verify_refresh_token = λ now t. read_token t;
  ttl_seconds = λ ms. ms / 1000;
}

abbrev at_time : ℕ → Request
at_time now = record { now = now; redis_ready = false; new_code = 52 ∷ 50 ∷ []; ip = none }

-- 9123456789, and its normal form.
abbrev local_number : Text
local_number = 57 ∷ 49 ∷ 50 ∷ 51 ∷ 52 ∷ 53 ∷ 54 ∷ 55 ∷ 56 ∷ 57 ∷ []

abbrev mobile : Text
mobile = 48 ∷ local_number

abbrev sample_code : OtpCode
sample_code = record {
  id = 1;
  identifier = mobile;
  channel = sms;
  purpose = OtpPurpose.reset_password;
  code = 52 ∷ 50 ∷ [];
  expires_at = 1000;
  is_used = false;
  attempts = 0;
  user_id = some 5;
  created_at = 10;
}

abbrev sample_accounts : Accounts
sample_accounts = record {
  users =
      record {
        id = 5;
        full_name = none;
        email = none;
        phone = some mobile;
        password = some (1 ∷ 7 ∷ []);
        role = "CUSTOMER";
        is_blocked = false;
        blocked_reason = none;
        phone_verified_at = none;
        email_verified_at = none;
        last_login_at = none;
        last_login_ip = none;
      }
      ∷ [];
  user_seq = 6;
  wallet_owners = 5 ∷ [];
  otp_codes = sample_code ∷ [];
  otp_seq = 2;
  login_attempts = [];
  sessions = [];
  session_seq = 1;
  cooldowns = [];
  login_locks = [];
}

sample_SessionsBounded : SessionsBounded sample_env sample_accounts
sample_SessionsBounded user_id = omega arith

after_calls-SessionsBounded_example : SessionsBounded sample_env (
    after_calls sample_env
      ((at_time 20, call_login mobile (7 ∷ []))
        ∷ (at_time 30, call_login mobile (7 ∷ []))
        ∷ (at_time 40, call_login mobile (7 ∷ []))
        ∷ [])
      sample_accounts)
after_calls-SessionsBounded_example =
    after_calls-SessionsBounded sample_env
      ((at_time 20, call_login mobile (7 ∷ []))
        ∷ (at_time 30, call_login mobile (7 ∷ []))
        ∷ (at_time 40, call_login mobile (7 ∷ []))
        ∷ [])
      sample_accounts sample_SessionsBounded

verify_otp-Accepted_example :
    Returns
      (Accepted sample_env (at_time 20) (52 ∷ 50 ∷ []) OtpPurpose.reset_password sample_accounts)
      (verify_otp sample_env
        (at_time 20)
        mobile
        (52 ∷ 50 ∷ [])
        OtpPurpose.reset_password
        sample_accounts)
verify_otp-Accepted_example =
    verify_otp-Accepted sample_env (at_time 20) mobile (52 ∷ 50 ∷ []) OtpPurpose.reset_password
      sample_accounts

sample_normal : normalize_identifier sample_env.to_lower_case mobile ≡ ok mobile
unfolding normalize_identifier normalize_as detect_identifier_channel is_email is_mobile is_local
    local_option normalize_phone
sample_normal = refl

tries-Refused_example :
    Refused sample_env mobile mobile OtpPurpose.reset_password sample_normal
      (at_time 40)
      (52 ∷ 50 ∷ [])
      (try_codes sample_env mobile mobile OtpPurpose.reset_password sample_normal
        ((at_time 20, 48 ∷ []) ∷ (at_time 30, 49 ∷ []) ∷ [])
        sample_accounts)
tries-Refused_example =
    tries-Refused sample_env mobile mobile OtpPurpose.reset_password sample_normal
      ((at_time 20, 48 ∷ []) ∷ (at_time 30, 49 ∷ []) ∷ []) (at_time 40) (52 ∷ 50 ∷ [])
      sample_accounts sample_code refl ((refl, refl), ((refl, refl), tt)) (omega arith)

login-LoggedIn_example :
    Returns
      (LoggedIn sample_env (at_time 20) mobile (7 ∷ []) sample_accounts)
      (login sample_env (at_time 20) mobile (7 ∷ []) sample_accounts)
login-LoggedIn_example = login-LoggedIn sample_env (at_time 20) mobile (7 ∷ []) sample_accounts

reset_password_signs_out_example :
    Returns
      (λ _ after.
        (r : IdentifierChannel × User) × (middle : Accounts) × (AcceptedFor sample_env
            (at_time 20)
            (52 ∷ 50 ∷ [])
            OtpPurpose.reset_password
            sample_accounts
            r
            middle
          × (HasPassword r.1.id (1 ∷ 8 ∷ []) after.users × (active_count r.1.id after ≡ 0))))
      (reset_password sample_env (at_time 20) mobile (52 ∷ 50 ∷ []) (8 ∷ []) sample_accounts)
reset_password_signs_out_example =
    reset_password_signs_out sample_env (at_time 20) mobile (52 ∷ 50 ∷ []) sample_accounts (8 ∷ [])

-- One session, opened at 10 with the refresh token of that time.
abbrev signed_in : Text → Accounts
signed_in token = record sample_accounts {
  sessions =
      record { id = 1; user_id = 5; token = token; is_active = true; last_activity_at = 10 } ∷ [];
  session_seq = 2;
}

abbrev token_at : ℕ → Text
token_at now = now ∷ 5 ∷ 1 ∷ []

abbrev new_tokens : IssuedTokens
new_tokens = record {
  access_token = 3 ∷ 20 ∷ 5 ∷ 1 ∷ [];
  refresh_token = token_at 20;
  session_id = 1;
}

refreshed : refresh_tokens sample_env (at_time 20) (token_at 10) (signed_in (2 ∷ token_at 10)) ≡ (
  ok new_tokens,
  record sample_accounts {
    sessions =
        record {
          id = 1;
          user_id = 5;
          token = 2 ∷ token_at 20;
          is_active = true;
          last_activity_at = 20;
        }
        ∷ [];
    session_seq = 2;
  },
)
unfolding refresh_tokens refresh_payload refresh_session ◌>>=◌ update_row
refreshed = refl

refresh_tokens_once_example :
    refresh_tokens sample_env (at_time 30) (token_at 10) (record sample_accounts {
      sessions =
          record {
            id = 1;
            user_id = 5;
            token = 2 ∷ token_at 20;
            is_active = true;
            last_activity_at = 20;
          }
          ∷ [];
      session_seq = 2;
    })
    ≡ (
      err (unauthorized "the session is revoked"),
      record sample_accounts {
        sessions =
            record {
              id = 1;
              user_id = 5;
              token = 2 ∷ token_at 20;
              is_active = true;
              last_activity_at = 20;
            }
            ∷ [];
        session_seq = 2;
      },
    )
refresh_tokens_once_example =
    refresh_tokens_once sample_env (token_at 10) 5 1 (at_time 20) (at_time 30)
      (signed_in (2 ∷ token_at 10)) _ new_tokens refl refl refreshed refl

-- 0098 and the local number, with spaces around it.
abbrev spelled : Text
spelled = 32 ∷ 48 ∷ 48 ∷ 57 ∷ 56 ∷ 57 ∷ 49 ∷ 50 ∷ 51 ∷ 52 ∷ 53 ∷ 54 ∷ 55 ∷ 56 ∷ 57 ∷ 32 ∷ []

spelled_sms : detect_identifier_channel spelled ≡ ok sms
unfolding detect_identifier_channel is_email is_mobile is_local local_option
spelled_sms = refl

normalize_identifier_mobile_example :
    (normalize_identifier (λ t. t) spelled ≡ ok (48 ∷ last_ten spelled))
    × (normalize_identifier (λ t. t) (48 ∷ last_ten spelled) ≡ ok (48 ∷ last_ten spelled))
normalize_identifier_mobile_example = normalize_identifier_mobile (λ t. t) spelled spelled_sms refl
