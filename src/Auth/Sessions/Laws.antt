-- ===== src/Auth/Sessions/Laws.antt =====
-- How many sessions stay active (src/services/auth/session.service.ts).
use Prim.Native.String.{String}
use e_commerce_nodejs.Base.{
  ℕ, zero, suc, ◌+◌, ◌-◌, ◌≤◌, ◌≡◌, refl, sym, ◌∙◌, max, arith, Bool, true, false, Bool-cases, inl,
  inr, eq→==, ==→eq, Option, none, List, [], ◌∷◌, and_false, or_later, All, All-map, map, take,
  length, filter, sum_of, includes, ltb, ◌==◌, sum_of-sort_by, if◌then◌else◌,
}
use e_commerce_nodejs.Store.{
  Preserves, update_row-Preserves, update_many-Preserves, ok, pure, gets, when, ◌>>=◌, update_row,
  update_many, update_rows, count_rows, count_rows-le, count_rows-kept,
}
use e_commerce_nodejs.Auth.Rows.{UserSession, Accounts, sessions, Env, Request}
use e_commerce_nodejs.Auth.Sessions.{
  is_active_of, deactivate, is_session, active_sessions, ids_to_deactivate,
  enforce_max_active_sessions, create_session, create_session_and_tokens, set_token, revoke_session,
  is_other_of, revoke_all_sessions,
}

abbrev pub active_count : ℕ → Accounts → ℕ
active_count user_id s = count_rows (is_active_of user_id) s.sessions

-- 1 for a row that stays.
abbrev stays : {A : Type 0} → (A → Bool) → A → ℕ
stays q x = if q x then 0 else 1

count_rows-stays :
    {A : Type 0} (p q : A → Bool) (f : A → A) (rows : List A)
    → ((x : A) → p (f x) ≡ false)
    → count_rows p (update_rows q f rows) ≡ sum_of (stays q) (filter p rows)
count_rows-stays p q f [] h = refl
count_rows-stays p q f (x ∷ xs) h = ground (arith, h x, count_rows-stays p q f xs h)

count_rows-length :
    {A : Type 0} (p : A → Bool) (rows : List A)
    → count_rows p rows ≡ sum_of (λ _. 1) (filter p rows)
count_rows-length p [] = refl
count_rows-length p (x ∷ xs) = ground (arith, count_rows-length p xs)

sum_of-ones : {A : Type 0} (xs : List A) → sum_of (λ _. 1) xs ≡ length xs
sum_of-ones [] = refl
sum_of-ones (x ∷ xs) = omega (arith, sum_of-ones xs)

-- Of rows whose first `k` do not stay, the others are left at most.
stays-le :
    {A : Type 0} (q : A → Bool) (k : ℕ) (xs : List A)
    → All (λ x. q x ≡ true) (take k xs)
    → sum_of (stays q) xs ≤ length xs - k
stays-le q k [] h = omega arith
stays-le q zero (x ∷ xs) h = ground (arith, stays-le q zero xs tt)
stays-le q (suc k) (x ∷ xs) h = rw h.0 (omega (arith, stays-le q k xs h.1))

All-includes :
    (xs : List UserSession)
    → All (λ x. includes x.id (map (λ (y : UserSession). y.id) xs) ≡ true) xs
All-includes [] = tt
All-includes (x ∷ xs) =
    (rw (eq→== x.id x.id refl) refl, All-map xs (λ y h. or_later _ _ h) (All-includes xs))

-- After the least recently used sessions made room, one more fits.
enforce_max_active_sessions-le :
    (env : Env) (user_id : ℕ) (s : Accounts)
    → active_count user_id (enforce_max_active_sessions env user_id s).1
      ≤ env.max_active_sessions - 1
unfolding enforce_max_active_sessions gets when update_many ◌>>=◌
enforce_max_active_sessions-le env user_id s =
    let active = active_sessions user_id s in
    let counted : active_count user_id s ≡ length active =
      count_rows-length (is_active_of user_id) s.sessions
      ∙ sym (
          sum_of-sort_by (λ (x : UserSession). x.last_activity_at) (λ _. 1)
            (filter (is_active_of user_id) s.sessions))
      ∙ sum_of-ones active in
    let idle : UserSession → Bool =
      λ x. includes x.id (ids_to_deactivate env.max_active_sessions active) in
    elim (Bool-cases (ltb 0 (suc (length active) - env.max_active_sessions))) [
      | inl over ↦
          let left =
            stays-le idle (suc (length active) - env.max_active_sessions) active (All-includes _) in
          rw
            (
              over,
              count_rows-stays (is_active_of user_id) idle deactivate s.sessions
                  (λ x. and_false (x.user_id == user_id)),
              sym (
                  sum_of-sort_by (λ (x : UserSession). x.last_activity_at) (stays idle)
                    (filter (is_active_of user_id) s.sessions)),
            )
            (omega (arith, left))
      | inr fits ↦ rw fits (ground (arith, counted))
    ]

-- Nobody has more active sessions than before.
enforce_max_active_sessions_all :
    (env : Env) (user_id other : ℕ) (s : Accounts)
    → active_count other (enforce_max_active_sessions env user_id s).1 ≤ active_count other s
unfolding enforce_max_active_sessions gets when update_many ◌>>=◌
enforce_max_active_sessions_all env user_id other s =
    let active = active_sessions user_id s in
    elim (Bool-cases (ltb 0 (suc (length active) - env.max_active_sessions))) [
      | inl over ↦ rw over (
          count_rows-le (is_active_of other) _ deactivate s.sessions
            (λ x. and_false (x.user_id == other)))
      | inr fits ↦ rw fits (omega arith)
    ]

-- No user has more than `MAX_ACTIVE_SESSIONS` active sessions, one where that is 0.
abbrev pub SessionsBounded : Env → Accounts → Type 0
SessionsBounded env s = (user_id : ℕ) → active_count user_id s ≤ max 1 env.max_active_sessions

enforce_max_active_sessions_returns :
    (env : Env) (user_id : ℕ) (s : Accounts)
    → enforce_max_active_sessions env user_id s
      ≡ (ok tt, (enforce_max_active_sessions env user_id s).1)
unfolding enforce_max_active_sessions gets when update_many ◌>>=◌
enforce_max_active_sessions_returns env user_id s =
    let active = active_sessions user_id s in
    elim (Bool-cases (ltb 0 (suc (length active) - env.max_active_sessions))) [
      | inl over ↦ rw over refl
      | inr fits ↦ rw fits refl
    ]

create_session_and_tokens-active_count :
    (env : Env) (req : Request) (user_id : ℕ) (role : String) (other : ℕ) (s : Accounts)
    → active_count other (create_session_and_tokens env req user_id role s).1
      ≡ (if user_id == other then 1 else 0)
        + active_count other (enforce_max_active_sessions env user_id s).1
unfolding create_session_and_tokens create_session update_row pure ◌>>=◌
create_session_and_tokens-active_count env req user_id role other s =
    let s' = (enforce_max_active_sessions env user_id s).1 in
    let kept =
      count_rows-kept (is_active_of other) (is_session s'.session_seq)
        (set_token env (env.sha256 (env.sign_refresh_token req.now user_id s'.session_seq)))
        s'.sessions (λ x. refl) in
    rw (enforce_max_active_sessions_returns env user_id s, eq→== s'.session_seq s'.session_seq refl)
      (ground (arith, kept))

-- A new session keeps every user within the bound.
pub create_session_and_tokens-Preserves :
    (env : Env) (req : Request) (user_id : ℕ) (role : String)
    → Preserves (SessionsBounded env) (create_session_and_tokens env req user_id role)
create_session_and_tokens-Preserves env req user_id role = record {
  run = λ s h other. elim (Bool-cases (user_id == other)) [
    | inl same ↦
        rw
          (
            create_session_and_tokens-active_count env req user_id role other s,
            same,
            sym (==→eq user_id other same),
          )
          (omega (arith, enforce_max_active_sessions-le env user_id s))
    | inr different ↦
        rw (create_session_and_tokens-active_count env req user_id role other s, different)
          (omega (arith, enforce_max_active_sessions_all env user_id other s, h other))
  ];
}

-- Signing out leaves every user within the bound.
pub revoke_session-Preserves :
    (env : Env) (session_id : ℕ) → Preserves (SessionsBounded env) (revoke_session session_id)
unfolding revoke_session
revoke_session-Preserves env session_id = update_row-Preserves sessions _ _ (λ s h u.
    let le =
      count_rows-le (is_active_of u) (is_session session_id) deactivate s.sessions
        (λ x. and_false (x.user_id == u)) in
    omega (arith, le, h u))

pub revoke_all_sessions-Preserves :
    (env : Env) (user_id : ℕ) (except_id : Option ℕ)
    → Preserves (SessionsBounded env) (revoke_all_sessions user_id except_id)
unfolding revoke_all_sessions
revoke_all_sessions-Preserves env user_id except_id = update_many-Preserves sessions _ _ (λ s h u.
    let le =
      count_rows-le (is_active_of u) (is_other_of user_id except_id) deactivate s.sessions
        (λ x. and_false (x.user_id == u)) in
    omega (arith, le, h u))

gone :
    (user_id : ℕ) (rows : List UserSession)
    → count_rows (is_active_of user_id) (update_rows (is_other_of user_id none) deactivate rows) ≡ 0
gone user_id [] = refl
gone user_id (x ∷ xs) = ground (arith, gone user_id xs)

-- After every session of a user is revoked, none is active.
pub revoke_all_sessions-active_count :
    (user_id : ℕ) (s : Accounts) → active_count user_id (revoke_all_sessions user_id none s).1 ≡ 0
unfolding revoke_all_sessions update_many
revoke_all_sessions-active_count user_id s = gone user_id s.sessions
