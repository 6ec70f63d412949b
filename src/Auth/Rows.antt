-- ===== src/Auth/Rows.antt =====
-- The tables of accounts (prisma/schema.prisma): users, one-time codes, login attempts, sessions and
-- the wallets that registration opens; and the Redis keys of the same services.
use Prim.Native.String.{String}
use e_commerce_nodejs.Base.{ℕ, Bool, Option, List}
use e_commerce_nodejs.Base.Texts.{Text}
use e_commerce_nodejs.Store.{Table}
use e_commerce_nodejs.Auth.Identifier.{IdentifierChannel}

pub data OtpPurpose : Type 0 where
  register login reset_password verify_phone verify_email change_phone : OtpPurpose

abbrev pub purpose_number : OtpPurpose → ℕ
purpose_number register = 0
purpose_number login = 1
purpose_number reset_password = 2
purpose_number verify_phone = 3
purpose_number verify_email = 4
purpose_number change_phone = 5

pub record User : Type 0 where
  pub id : ℕ
  pub full_name : Option String
  pub email : Option Text
  pub phone : Option Text
  pub password : Option Text
  pub role : String
  pub is_blocked : Bool
  pub blocked_reason : Option String
  pub phone_verified_at : Option ℕ
  pub email_verified_at : Option ℕ
  pub last_login_at : Option ℕ
  pub last_login_ip : Option String

pub record OtpCode : Type 0 where
  pub id : ℕ
  pub identifier : Text
  pub channel : IdentifierChannel
  pub purpose : OtpPurpose
  pub code : Text
  pub expires_at : ℕ
  pub is_used : Bool
  pub attempts : ℕ
  pub user_id : Option ℕ
  pub created_at : ℕ

pub record LoginAttempt : Type 0 where
  pub identifier : Text
  pub user_id : Option ℕ
  pub is_successful : Bool
  pub created_at : ℕ

pub record UserSession : Type 0 where
  pub id : ℕ
  pub user_id : ℕ
  pub token : Text
  pub is_active : Bool
  pub last_activity_at : ℕ

-- A Redis key `otpcooldown:<purpose>:<identifier>`, and when it expires.
pub record Cooldown : Type 0 where
  pub purpose : OtpPurpose
  pub identifier : Text
  pub expires_at : ℕ

-- A Redis counter `loginlock:<identifier>`.
pub record LoginLock : Type 0 where
  pub identifier : Text
  pub failed : ℕ
  pub expires_at : ℕ

-- Newer rows stand first; a `_seq` is the next value of an autoincrement column.
pub record Accounts : Type 0 where
  pub users : List User
  pub user_seq : ℕ
  pub wallet_owners : List ℕ
  pub otp_codes : List OtpCode
  pub otp_seq : ℕ
  pub login_attempts : List LoginAttempt
  pub sessions : List UserSession
  pub session_seq : ℕ
  pub cooldowns : List Cooldown
  pub login_locks : List LoginLock

abbrev pub users : Table Accounts User
users = record { rows = λ s. s.users; put = λ rs s. record s { users = rs } }

abbrev pub otp_codes : Table Accounts OtpCode
otp_codes = record { rows = λ s. s.otp_codes; put = λ rs s. record s { otp_codes = rs } }

abbrev pub login_attempts : Table Accounts LoginAttempt
login_attempts = record {
  rows = λ s. s.login_attempts;
  put = λ rs s. record s { login_attempts = rs };
}

abbrev pub sessions : Table Accounts UserSession
sessions = record { rows = λ s. s.sessions; put = λ rs s. record s { sessions = rs } }

-- The settings of src/config/env.ts, and the libraries that the services call: bcrypt, SHA-256, JWT,
-- the lower case of a text, and the whole seconds that Redis reports of a remaining time.
pub record Env : Type 0 where
  pub otp_expires_in_minutes : ℕ
  pub otp_resend_cooldown_seconds : ℕ
  pub otp_max_verify_attempts : ℕ
  pub login_lock_window_minutes : ℕ
  pub login_max_failed_attempts : ℕ
  pub max_active_sessions : ℕ
  pub to_lower_case : Text → Text
  pub hash_password : Text → Text
  pub compare_password : Text → Text → Bool
  pub sha256 : Text → Text
  pub sign_access_token : ℕ → String → ℕ → ℕ → Text
  pub sign_refresh_token : ℕ → ℕ → ℕ → Text
  pub verify_refresh_token : ℕ → Text → Option (ℕ × ℕ)
  pub ttl_seconds : ℕ → ℕ

-- What a request meets: the time, whether Redis answers, and the code that `generateNumericOtp`
-- draws. A Redis call that fails is caught, and the services go on as if Redis were not ready.
pub record Request : Type 0 where
  pub now : ℕ
  pub redis_ready : Bool
  pub new_code : Text
  pub ip : Option String
