-- ===== src/Auth/Login/Guard.antt =====
-- The lock on an account after failed logins (src/services/auth/login-guard.service.ts).
use e_commerce_nodejs.Base.{
  ℕ, suc, ◌+◌, ◌*◌, Bool, not, ◌&&◌, Option, none, some, ◌∷◌, find_by, ltb, leb, if◌then◌else◌,
}
use e_commerce_nodejs.Base.Texts.{Text, text_eq}
use e_commerce_nodejs.Store.{
  too_many, Act, ok, gets, throw_if, when, ◌>>=◌, ◌>>◌, create_row, count_rows,
}
use e_commerce_nodejs.Auth.Rows.{LoginAttempt, LoginLock, Accounts, login_attempts, Env, Request}

module _ (env : Env) where
  abbrev pub lock_window : ℕ
  lock_window = env.login_lock_window_minutes * 60 * 1000

  abbrev pub is_recent_failure : Request → Text → LoginAttempt → Bool
  is_recent_failure req identifier a =
      text_eq a.identifier identifier
      && (not a.is_successful && leb req.now (a.created_at + lock_window))

  -- The Redis counter of an identifier, while it has not expired.
  abbrev pub live_lock : Request → Text → Accounts → Option LoginLock
  live_lock req identifier s =
      find_by (λ l. text_eq l.identifier identifier && ltb req.now l.expires_at) s.login_locks

  abbrev pub failed_of : Option LoginLock → ℕ
  failed_of none = 0
  failed_of (some l) = l.failed

  -- From Redis, or counted in the database where Redis does not answer.
  abbrev pub failed_count : Request → Text → Accounts → ℕ
  failed_count req identifier s =
      if req.redis_ready
      then failed_of (live_lock req identifier s)
      else count_rows (is_recent_failure req identifier) s.login_attempts

  unfoldable pub assert_not_locked_out : Request → Text → Act Accounts (Unit {0})
  assert_not_locked_out req identifier = do
    failed ← gets (failed_count req identifier)
    throw_if (leb env.login_max_failed_attempts failed)
        (too_many "the account is locked for a while")

  -- `INCR`, and `PEXPIRE` where the counter is new.
  abbrev pub next_lock : Request → Text → Option LoginLock → LoginLock
  next_lock req identifier none = record {
    identifier = identifier;
    failed = 1;
    expires_at = req.now + lock_window;
  }
  next_lock req identifier (some l) = record l { failed = suc l.failed }

  unfoldable pub count_failure : Request → Text → Act Accounts (Unit {0})
  count_failure req identifier s = (
    ok tt,
    record s {
      login_locks = next_lock req identifier (live_lock req identifier s) ∷ s.login_locks;
    },
  )

  unfoldable pub record_login_attempt : Request → Text → Option ℕ → Bool → Act Accounts (Unit {0})
  record_login_attempt req identifier user_id is_successful = do
    create_row login_attempts record {
      identifier = identifier;
      user_id = user_id;
      is_successful = is_successful;
      created_at = req.now;
    }
    when (not is_successful && req.redis_ready) (count_failure req identifier)
