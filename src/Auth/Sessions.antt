-- ===== src/Auth/Sessions.antt =====
-- Sessions and their tokens (src/services/auth/session.service.ts).
pub mod Laws
use Prim.Native.String.{String}
use e_commerce_nodejs.Base.{
  ℕ, suc, ◌-◌, Bool, true, false, not, ◌&&◌, Option, none, some, List, [], ◌∷◌, map, take, length,
  filter, includes, ltb, ◌==◌, sort_by, if◌then◌else◌,
}
use e_commerce_nodejs.Base.Texts.{Text}
use e_commerce_nodejs.Store.{ok, Act, pure, gets, when, ◌>>=◌, ◌>>◌, update_row, update_many}
use e_commerce_nodejs.Auth.Rows.{UserSession, Accounts, sessions, Env, Request}

pub record IssuedTokens : Type 0 where
  pub access_token : Text
  pub refresh_token : Text
  pub session_id : ℕ

abbrev pub is_active_of : ℕ → UserSession → Bool
is_active_of user_id x = (x.user_id == user_id) && x.is_active

abbrev pub deactivate : UserSession → UserSession
deactivate x = record x { is_active = false }

abbrev pub is_session : ℕ → UserSession → Bool
is_session id x = x.id == id

-- The active sessions of a user, the least recently used first.
abbrev pub active_sessions : ℕ → Accounts → List UserSession
active_sessions user_id s =
    sort_by (λ x. x.last_activity_at) (filter (is_active_of user_id) s.sessions)

-- The ids of the sessions that have to make room for one more.
abbrev pub ids_to_deactivate : ℕ → List UserSession → List ℕ
ids_to_deactivate max_active active =
    map (λ x. x.id) (take (suc (length active) - max_active) active)

-- `token: "pending"`
abbrev pub pending : Text
pending = 112 ∷ 101 ∷ 110 ∷ 100 ∷ 105 ∷ 110 ∷ 103 ∷ []

module _ (env : Env) where
  unfoldable pub enforce_max_active_sessions : ℕ → Act Accounts (Unit {0})
  enforce_max_active_sessions user_id = do
    active ← gets (active_sessions user_id)
    when (ltb 0 (suc (length active) - env.max_active_sessions)) (
        update_many sessions (λ x. includes x.id (ids_to_deactivate env.max_active_sessions active))
          deactivate)

  -- `prisma.userSession.create`
  unfoldable pub create_session : Request → ℕ → Act Accounts UserSession
  create_session req user_id s =
      let x : UserSession = record {
        id = s.session_seq;
        user_id = user_id;
        token = pending;
        is_active = true;
        last_activity_at = req.now;
      } in
      (ok x, record s { sessions = x ∷ s.sessions; session_seq = suc s.session_seq })

  abbrev pub set_token : Text → UserSession → UserSession
  set_token token x = record x { token = token }

  unfoldable pub create_session_and_tokens : Request → ℕ → String → Act Accounts IssuedTokens
  create_session_and_tokens req user_id role = do
    enforce_max_active_sessions user_id
    session ← create_session req user_id
    let refresh_token = env.sign_refresh_token req.now user_id session.id
    update_row sessions (is_session session.id) (set_token (env.sha256 refresh_token))
    pure record {
      access_token = env.sign_access_token req.now role user_id session.id;
      refresh_token = refresh_token;
      session_id = session.id;
    }

unfoldable pub revoke_session : ℕ → Act Accounts (Unit {0})
revoke_session session_id = update_row sessions (is_session session_id) deactivate

abbrev pub is_other_of : ℕ → Option ℕ → UserSession → Bool
is_other_of user_id none x = x.user_id == user_id
is_other_of user_id (some except_id) x =
    (x.user_id == user_id) && (if except_id == 0 then true else not (x.id == except_id))

unfoldable pub revoke_all_sessions : ℕ → Option ℕ → Act Accounts (Unit {0})
revoke_all_sessions user_id except_id =
    update_many sessions (is_other_of user_id except_id) deactivate
