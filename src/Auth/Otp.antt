-- ===== src/Auth/Otp.antt =====
-- One-time codes (src/services/otp/otp.service.ts).
pub mod Laws
use e_commerce_nodejs.Base.{
  ℕ, suc, ◌+◌, ◌-◌, ◌*◌, Bool, true, false, not, ◌&&◌, ◌||◌, Option, none, some, List, [], ◌∷◌,
  find_by, ltb, leb, ◌==◌, if_found, if◌then◌else◌,
}
use e_commerce_nodejs.Base.Texts.{Text, text_eq}
use e_commerce_nodejs.Store.{
  ApiError, Result, ok, err, bad_request, too_many, Act, pure, throw, throw_if, gets, or_throw,
  ◌>>=◌, ◌>>◌, update_row, delete_many,
}
use e_commerce_nodejs.Auth.Identifier.{
  IdentifierChannel, detect_identifier_channel, normalize_identifier,
}
use e_commerce_nodejs.Auth.Rows.{
  OtpPurpose, purpose_number, OtpCode, Cooldown, Accounts, otp_codes, Env, Request,
}

-- What a thrown error of a pure helper does to the call.
unfoldable pub returned : {S A : Type 0} → Result A → Act S A
returned r s = (r, s)

abbrev pub same_purpose : OtpPurpose → OtpPurpose → Bool
same_purpose p q = purpose_number p == purpose_number q

abbrev pub is_for : Text → OtpPurpose → OtpCode → Bool
is_for identifier purpose o = text_eq o.identifier identifier && same_purpose o.purpose purpose

abbrev pub is_cooldown : Text → OtpPurpose → Cooldown → Bool
is_cooldown identifier purpose c = text_eq c.identifier identifier && same_purpose c.purpose purpose

-- The newest code for the identifier and the purpose that is not used.
abbrev pub is_open : Text → OtpPurpose → OtpCode → Bool
is_open identifier purpose o = is_for identifier purpose o && not o.is_used

abbrev pub has_id : ℕ → OtpCode → Bool
has_id id o = o.id == id

abbrev pub add_attempt : OtpCode → OtpCode
add_attempt o = record o { attempts = suc o.attempts }

abbrev pub use_up : OtpCode → OtpCode
use_up o = record o { is_used = true }

-- A wrong code is counted, and refused.
unfoldable pub reject_code : OtpCode → Act Accounts (Unit {0})
reject_code otp = do
  update_row otp_codes (has_id otp.id) add_attempt
  throw (bad_request "wrong code")

unfoldable pub compare_code : OtpCode → Text → Act Accounts (Unit {0})
unfolding reject_code
compare_code otp code = if text_eq otp.code code then pure tt else reject_code otp

module _ (env : Env) where
  -- `redis.ttl(key)`, of a key that has not expired.
  abbrev pub ttl : ℕ → Option Cooldown → ℕ
  ttl now none = 0
  ttl now (some c) = if ltb now c.expires_at then env.ttl_seconds (c.expires_at - now) else 0

  abbrev pub is_recent : ℕ → Option OtpCode → Bool
  is_recent now none = false
  is_recent now (some last) = ltb now (last.created_at + env.otp_resend_cooldown_seconds * 1000)

  -- Whether the cooldown runs: by the Redis key, or by the newest code where Redis does not answer.
  abbrev pub in_cooldown : Request → Text → OtpPurpose → Accounts → Bool
  in_cooldown req identifier purpose s =
      if req.redis_ready
      then ltb 0 (ttl req.now (find_by (is_cooldown identifier purpose) s.cooldowns))
      else is_recent req.now (find_by (is_for identifier purpose) s.otp_codes)

  unfoldable pub assert_not_in_cooldown : Request → Text → OtpPurpose → Act Accounts (Unit {0})
  assert_not_in_cooldown req identifier purpose = do
    waiting ← gets (in_cooldown req identifier purpose)
    throw_if waiting (too_many "wait before asking for another code")

  unfoldable pub start_resend_cooldown : Request → Text → OtpPurpose → Act Accounts (Unit {0})
  start_resend_cooldown req identifier purpose s =
      let key : Cooldown = record {
        purpose = purpose;
        identifier = identifier;
        expires_at = req.now + env.otp_resend_cooldown_seconds * 1000;
      } in
      (ok tt, record s { cooldowns = if req.redis_ready then key ∷ s.cooldowns else s.cooldowns })

  -- `prisma.otpCode.create`
  unfoldable pub create_otp :
      Request → Text → IdentifierChannel → OtpPurpose → Option ℕ → Act Accounts (Unit {0})
  create_otp req identifier channel purpose user_id s = (
    ok tt,
    record s {
      otp_codes =
          record {
            id = s.otp_seq;
            identifier = identifier;
            channel = channel;
            purpose = purpose;
            code = req.new_code;
            expires_at = req.now + env.otp_expires_in_minutes * 60 * 1000;
            is_used = false;
            attempts = 0;
            user_id = user_id;
            created_at = req.now;
          }
          ∷ s.otp_codes;
      otp_seq = suc s.otp_seq;
    },
  )

  -- The code is written and sent; the result is what the caller is told.
  unfoldable pub issue_otp :
      Request → Text → OtpPurpose → Option ℕ → Act Accounts (Text × IdentifierChannel)
  issue_otp req raw purpose user_id = do
    channel ← returned (detect_identifier_channel raw)
    identifier ← returned (normalize_identifier env.to_lower_case raw)
    assert_not_in_cooldown req identifier purpose
    create_otp req identifier channel purpose user_id
    start_resend_cooldown req identifier purpose
    pure (identifier, channel)

  unfoldable pub check_otp : Request → Text → OtpCode → Act Accounts (Unit {0})
  check_otp req code otp = do
    throw_if (ltb otp.expires_at req.now) (bad_request "the code has expired")
    throw_if (leb env.otp_max_verify_attempts otp.attempts) (too_many "no attempts left")
    compare_code otp code
    update_row otp_codes (has_id otp.id) use_up

  unfoldable pub verify_otp :
      Request → Text → Text → OtpPurpose → Act Accounts (Text × IdentifierChannel)
  verify_otp req raw code purpose = do
    identifier ← returned (normalize_identifier env.to_lower_case raw)
    found ← gets (λ s. find_by (is_open identifier purpose) s.otp_codes)
    otp ← or_throw found (bad_request "no code was asked for")
    check_otp req code otp
    pure (identifier, otp.channel)

-- The codes that the cleanup job drops (src/jobs/cleanup-otp.job.ts).
abbrev pub is_stale : ℕ → ℕ → OtpCode → Bool
is_stale now retention_hours o =
    ltb (o.created_at + retention_hours * 60 * 60 * 1000) now && (o.is_used || ltb o.expires_at now)

unfoldable pub run_cleanup_otp_job : ℕ → ℕ → Act Accounts (Unit {0})
run_cleanup_otp_job now retention_hours = delete_many otp_codes (is_stale now retention_hours)
