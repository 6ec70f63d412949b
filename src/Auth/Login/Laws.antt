-- ===== src/Auth/Login/Laws.antt =====
-- Who gets in (src/services/auth/auth.service.ts).
use e_commerce_nodejs.Base.{
  ℕ, ◌<◌, ◌≡◌, refl, arith, true, false, not_both, Bool-cases, Option-cases, any, inl, inr, ◌⊎◌,
  Option, none, some, List, [], ◌∷◌, All, leb, ◌==◌, eq→==, find_by,
}
use e_commerce_nodejs.Base.Texts.{Text}
use e_commerce_nodejs.Store.{
  ApiError, Result, ok, err, Returns, and_then-Returns, update_rows, update_row, update_many,
  throws-Returns, pure, throw_if, gets, or_throw, ◌>>=◌, Ensures, Ensures-bind, Ensures-kept,
  Returns-map, ◌>>◌, update_row-Preserves, Ensures-pure,
}
use e_commerce_nodejs.Auth.Identifier.{
  IdentifierChannel, detect_identifier_channel, normalize_identifier,
}
use e_commerce_nodejs.Auth.Rows.{
  OtpPurpose, User, Accounts, Env, Request, UserSession, sessions, users,
}
use e_commerce_nodejs.Auth.Otp.{returned, verify_otp}
use e_commerce_nodejs.Auth.Otp.Laws.{Accepted, verify_otp-Accepted}
use e_commerce_nodejs.Auth.Sessions.Laws.{active_count, revoke_all_sessions-active_count}
use e_commerce_nodejs.Auth.Sessions.{
  IssuedTokens, revoke_all_sessions, is_session, set_token, create_session,
  create_session_and_tokens,
}
use e_commerce_nodejs.Auth.Login.Guard.{failed_count, assert_not_locked_out, record_login_attempt}
use e_commerce_nodejs.Auth.Login.{
  find_user_of, find_user_by_identifier, fail, login_matching, login_user, login, is_user,
  set_password, verified_user, reset_password, sign_in, touch_last_login,
}

-- What a login needs: the account that the identifier names, not locked out, not blocked, and its
-- password.
pub record MayLogin (env : Env) (req : Request) (raw password : Text) (s : Accounts) : Type 0 where
  pub channel : IdentifierChannel
  pub identifier : Text
  pub user : User
  pub hash : Text
  pub normal : normalize_identifier env.to_lower_case raw ≡ ok identifier
  pub named : find_user_of channel identifier s ≡ some user
  pub not_locked : failed_count env req identifier s < env.login_max_failed_attempts
  pub not_blocked : user.is_blocked ≡ false
  pub has_password : user.password ≡ some hash
  pub matches : env.compare_password password hash ≡ true

-- Tokens of a new session of a user: it is active, and the tokens are signed for it and the user.
pub record SessionOf (env : Env) (req : Request) (user : User) (tokens : IssuedTokens)
    (rows : List UserSession) : Type 0 where
  pub session : UserSession
  pub stored : find_by (is_session tokens.session_id) rows ≡ some session
  pub of_user : session.user_id ≡ user.id
  pub active : session.is_active ≡ true
  pub hashed : session.token ≡ env.sha256 tokens.refresh_token
  pub refresh : tokens.refresh_token ≡ env.sign_refresh_token req.now user.id tokens.session_id
  pub access :
      tokens.access_token ≡ env.sign_access_token req.now user.role user.id tokens.session_id

module _ (env : Env) (req : Request) (user : User) where
  new_session-SessionOf :
      (db : Accounts)
      → Returns
          (λ tokens after. SessionOf env req user tokens after.sessions)
          ((create_session env req user.id >>= λ (x : UserSession).
              let refresh_token = env.sign_refresh_token req.now user.id x.id in
              update_row sessions (is_session x.id) (set_token env (env.sha256 refresh_token))
              >> pure record {
                access_token = env.sign_access_token req.now user.role user.id x.id;
                refresh_token = refresh_token;
                session_id = x.id;
              })
            db)
  unfolding create_session update_row pure ◌>>=◌
  new_session-SessionOf db = rw (eq→== db.session_seq db.session_seq refl) (record {
    session = record {
      id = db.session_seq;
      user_id = user.id;
      token = env.sha256 (env.sign_refresh_token req.now user.id db.session_seq);
      is_active = true;
      last_activity_at = req.now;
    };
    stored = rw (eq→== db.session_seq db.session_seq refl) refl;
    of_user = refl;
    active = refl;
    hashed = refl;
    refresh = refl;
    access = refl;
  })

  sign_in-SessionOf :
      Ensures
        (λ _. Unit {0})
        (sign_in env req user)
        (λ tokens after. SessionOf env req user tokens after.sessions)
  unfolding sign_in create_session_and_tokens touch_last_login update_row
  sign_in-SessionOf =
      Ensures-bind _ _
        (Ensures-bind _ _ (Ensures-kept _ (record { run = λ db h. tt }))
          (λ _. record { run = λ db h. new_session-SessionOf db }))
        (λ tokens.
          Ensures-bind _ _ (Ensures-kept _ (update_row-Preserves users _ _ (λ after h. h)))
            (λ _. Ensures-pure tokens (λ after h. h)))

-- A login that returned: what it needed, and a session with tokens of that account.
pub record LoggedIn (env : Env) (req : Request) (raw password : Text) (s : Accounts)
    (tokens : IssuedTokens) (after : Accounts) : Type 0 where
  pub may : MayLogin env req raw password s
  pub session : SessionOf env req may.user tokens after.sessions

module _ (env : Env) (req : Request) (raw password : Text) (s : Accounts) where
  abbrev MayReturn : Result IssuedTokens × Accounts → Type 0
  MayReturn = Returns (LoggedIn env req raw password s)

  fail-MayReturn :
      (identifier : Text) (user_id : Option ℕ) → MayReturn (fail env req identifier user_id s)
  unfolding fail ◌>>=◌
  fail-MayReturn identifier user_id = throws-Returns _ _ _

  module _ (channel : IdentifierChannel) (identifier : Text)
      (normal : normalize_identifier env.to_lower_case raw ≡ ok identifier)
      (free : leb env.login_max_failed_attempts (failed_count env req identifier s) ≡ false) where
    matching-MayReturn :
        (user : User) (hash : Text)
        → find_user_of channel identifier s ≡ some user
        → user.password ≡ some hash
        → user.is_blocked ≡ false
        → MayReturn (login_matching env req identifier password user hash s)
    unfolding login_matching
    matching-MayReturn user hash named e b =
        elim (Bool-cases (env.compare_password password hash)) [
          | inr wrong ↦ rw wrong (fail-MayReturn identifier _)
          | inl right ↦ rw right (
              Returns-map
                ((record_login_attempt env req identifier (some user.id) true
                    >> sign_in env req user)
                  s)
                (λ tokens after issued. record {
                  may = record {
                    channel = channel;
                    identifier = identifier;
                    user = user;
                    hash = hash;
                    normal = normal;
                    named = named;
                    not_locked = ground arith;
                    not_blocked = b;
                    has_password = e;
                    matches = right;
                  };
                  session = issued;
                })
                ((Ensures-bind _ _ (Ensures-kept _ (record { run = λ db h. tt }))
                    (λ _. sign_in-SessionOf env req user)).run
                  s tt))
        ]

    user-MayReturn :
        (user : User) (hash : Option Text)
        → find_user_of channel identifier s ≡ some user
        → user.password ≡ hash
        → MayReturn (login_user env req identifier password (some user) s)
    unfolding login_user throw_if ◌>>=◌
    user-MayReturn user none named e = rw e (fail-MayReturn identifier _)
    user-MayReturn user (some hash) named e = elim (Bool-cases user.is_blocked) [
      | inl b ↦ rw (e, b) tt
      | inr b ↦ simp (e, b) (matching-MayReturn user hash named e b)
    ]

    found-MayReturn :
        (user : Option User)
        → find_user_of channel identifier s ≡ user
        → MayReturn (login_user env req identifier password user s)
    unfolding login_user
    found-MayReturn none e = fail-MayReturn identifier _
    found-MayReturn (some user) e = user-MayReturn user _ e refl

  Result-cases :
      {A : Type 0} (r : Result A) → ((e : ApiError) × (r ≡ err e)) ⊎ ((a : A) × (r ≡ ok a))
  Result-cases (ok a) = inr (a, refl)
  Result-cases (err e) = inl (e, refl)

  -- A password login that returns is of the account that the identifier names, which is neither locked
  -- out nor blocked, with that account's password. It leaves an active session of that account, and the
  -- tokens that it returns are signed for that account and that session.
  pub login-LoggedIn : Returns (LoggedIn env req raw password s) (login env req raw password s)
  unfolding login assert_not_locked_out find_user_by_identifier returned gets throw_if ◌>>=◌
  login-LoggedIn = elim (Result-cases (normalize_identifier env.to_lower_case raw)) [
    | inl (e, bad) ↦ rw bad tt
    | inr (identifier, normal) ↦
        elim (Bool-cases (leb env.login_max_failed_attempts (failed_count env req identifier s))) [
          | inl locked ↦ rw (normal, locked) tt
          | inr free ↦ elim (Result-cases (detect_identifier_channel raw)) [
            | inl (e, bad) ↦ rw (normal, free, bad) tt
            | inr (channel, detected) ↦
                rw (normal, free, detected) (found-MayReturn channel identifier normal free _ refl)
          ]
        ]
  ]

-- A code was accepted for the user that its identifier names.
pub record AcceptedFor (env : Env) (req : Request) (code : Text) (purpose : OtpPurpose)
    (before : Accounts) (r : IdentifierChannel × User) (after : Accounts) : Type 0 where
  pub identifier : Text
  pub accepted : Accepted env req code purpose before (identifier, r.0) after
  pub named : find_user_of r.0 identifier before ≡ some r.1

-- The password of every row of a user.
abbrev pub HasPassword : ℕ → Text → List User → Type 0
HasPassword user_id hash rows =
    All (λ (u : User). (u.id == user_id) ≡ true → u.password ≡ some hash) rows

set_password-HasPassword :
    (env : Env) (user_id : ℕ) (hash : Text) (rows : List User)
    → HasPassword user_id hash (update_rows (is_user user_id) (set_password env hash) rows)
set_password-HasPassword env user_id hash [] = tt
set_password-HasPassword env user_id hash (u ∷ us) =
    let rest = set_password-HasPassword env user_id hash us in
    elim (Bool-cases (u.id == user_id)) [
      | inl same ↦ rw same ((λ _. refl), rest)
      | inr other ↦ rw other ((λ h. absurd (not_both (u.id == user_id) h other)), rest)
    ]

module _ (env : Env) (req : Request) (raw code : Text) (s : Accounts) where
  verified_user-AcceptedFor :
      (purpose : OtpPurpose)
      → Returns (AcceptedFor env req code purpose s) (verified_user env req raw code purpose s)
  unfolding verified_user ◌>>=◌ gets or_throw pure
  verified_user-AcceptedFor purpose =
      and_then-Returns (Accepted env req code purpose s) _ (verify_otp env req raw code purpose s) _
        (verify_otp-Accepted env req raw code purpose s)
        (λ r. record {
          run = λ middle h. elim (Option-cases (find_user_of r.1 r.0 middle)) [
            | inl missing ↦ rw missing tt
            | inr (u, found) ↦
                rw found
                  (record { identifier = r.0; accepted = h; named = rw h.users_kept at found })
          ];
        })

  -- Where a password is reset, it was by a code that was accepted for the user; that user has the new
  -- password, and no session of the user is active.
  pub reset_password_signs_out :
      (new_password : Text)
      → Returns
          (λ _ after.
            (r : IdentifierChannel × User) × (middle : Accounts) × (AcceptedFor env req code
                OtpPurpose.reset_password s r middle
              × (HasPassword r.1.id (env.hash_password new_password) after.users
                  × (active_count r.1.id after ≡ 0))))
          (reset_password env req raw code new_password s)
  unfolding reset_password revoke_all_sessions update_row update_many ◌>>=◌
  reset_password_signs_out new_password =
      and_then-Returns (AcceptedFor env req code OtpPurpose.reset_password s) _
        (verified_user env req raw code OtpPurpose.reset_password s) _
        (verified_user-AcceptedFor OtpPurpose.reset_password)
        (λ r. record {
          run = λ middle h. elim (Bool-cases (any (is_user r.1.id) middle.users)) [
            | inl there ↦ rw there (
              r,
              middle,
              (
                h,
                (
                  set_password-HasPassword env r.1.id _ middle.users,
                  revoke_all_sessions-active_count r.1.id (record middle {
                    users =
                        update_rows (is_user r.1.id)
                          (set_password env (env.hash_password new_password)) middle.users;
                  }),
                ),
              ),
            )
            | inr gone ↦ rw gone tt
          ];
        })
