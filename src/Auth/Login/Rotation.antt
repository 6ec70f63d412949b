-- ===== src/Auth/Login/Rotation.antt =====
-- A refresh token is used once (refreshTokens of src/services/auth/auth.service.ts).
use e_commerce_nodejs.Base.{
  ℕ, ◌≡◌, refl, false, not, and_false, Bool-cases, Option-cases, eq→==, inl, inr, some, find_by,
  ◌==◌,
}
use e_commerce_nodejs.Base.Texts.{Text, text_eq}
use e_commerce_nodejs.Store.{
  ok, err, unauthorized, Returns, Returns-at, pure, throw_if, gets, or_throw, ◌>>=◌, update_row,
  find_by-update, find_by-any,
}
use e_commerce_nodejs.Auth.Rows.{UserSession, Accounts, Env, Request}
use e_commerce_nodejs.Auth.Sessions.{IssuedTokens, is_session}
use e_commerce_nodejs.Auth.Login.{
  is_user, is_current, rotate, refresh_session, refresh_payload, refresh_tokens,
}

module _ (env : Env) (raw : Text) (user_id session_id : ℕ) where
  abbrev Replaced : Accounts → Text → Type 0
  Replaced after token =
      (x : UserSession) × ((find_by (is_session session_id) after.sessions ≡ some x)
        × (x.token ≡ env.sha256 token))

  -- The session of a refresh holds the new token.
  refresh-Replaced :
      (req : Request) (s : Accounts)
      → Returns
          (λ t after. Replaced after t.refresh_token)
          (refresh_session env req raw user_id session_id s)
  unfolding refresh_session gets or_throw throw_if update_row pure ◌>>=◌
  refresh-Replaced req s = elim (Option-cases (find_by (is_session session_id) s.sessions)) [
    | inl missing ↦ rw missing tt
    | inr (x, found) ↦ elim (Bool-cases (not (is_current env raw user_id x))) [
      | inl stale ↦ rw (found, stale) tt
      | inr current ↦ elim (Option-cases (find_by (is_user user_id) s.users)) [
        | inl missing ↦ rw (found, current, missing) tt
        | inr (u, holder) ↦ elim (Bool-cases u.is_blocked) [
          | inl b ↦ rw (found, current, holder, b) tt
          | inr b ↦
              rw
                (
                  found,
                  current,
                  holder,
                  b,
                  find_by-any (is_session session_id) (is_session x.id) x s.sessions found
                      (eq→== x.id x.id refl),
                )
                (
                  rotate env req (env.sha256 (env.sign_refresh_token req.now u.id x.id)) x,
                  (
                    find_by-update (is_session session_id) (is_session x.id) (rotate env req _) x
                        s.sessions (λ y. refl) found (eq→== x.id x.id refl),
                    refl,
                  ),
                )
        ]
      ]
    ]
  ]

  -- A session that holds another token refuses this one.
  Replaced-refused :
      (req : Request) (token : Text) (s : Accounts)
      → Replaced s token
      → text_eq (env.sha256 token) (env.sha256 raw) ≡ false
      → refresh_session env req raw user_id session_id s
        ≡ (err (unauthorized "the session is revoked"), s)
  unfolding refresh_session gets or_throw throw_if ◌>>=◌
  Replaced-refused req token s (x, (found, held)) other =
      rw (found, held, other, and_false (x.user_id == user_id), and_false x.is_active) refl

  -- Once a refresh token has been exchanged for another one, with another hash, it is refused.
  pub refresh_tokens_once :
      (req again : Request) (s after : Accounts) (tokens : IssuedTokens)
      → env.verify_refresh_token req.now raw ≡ some (user_id, session_id)
      → env.verify_refresh_token again.now raw ≡ some (user_id, session_id)
      → refresh_tokens env req raw s ≡ (ok tokens, after)
      → text_eq (env.sha256 tokens.refresh_token) (env.sha256 raw) ≡ false
      → refresh_tokens env again raw after ≡ (err (unauthorized "the session is revoked"), after)
  unfolding refresh_tokens refresh_payload
  refresh_tokens_once req again s after tokens valid still done other = rw still (
      Replaced-refused again tokens.refresh_token after
        (Returns-at (λ (t : IssuedTokens) (a : Accounts). Replaced a t.refresh_token)
          (refresh_session env req raw user_id session_id s) tokens after (rw valid at done)
          (refresh-Replaced req s))
        other)
