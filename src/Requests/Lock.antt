-- ===== src/Requests/Lock.antt =====
-- The lock around a background job (src/lib/distributedLock.ts), as the instances that share one Redis
-- take it, in any order. A token that `randomUUID` draws is a number not drawn before.
use e_commerce_nodejs.Store.{count_rows}
use e_commerce_nodejs.Base.{
  ℕ, suc, ◌+◌, ◌≤◌, ◌<◌, ◌≡◌, refl, ap, arith, Bool, true, false, not, Bool-cases, inl, inr, Option,
  none, some, List, [], ◌∷◌, All, All-map, filter, leb, ltb, ◌==◌, if◌then◌else◌,
}

-- The key of the lock: the token of its owner, and when it expires.
pub record Held : Type 0 where
  pub token : ℕ
  pub expires_at : ℕ

-- An instance that runs the job.
pub record Run : Type 0 where
  pub token : ℕ
  pub started_at : ℕ

pub record Locks : Type 0 where
  pub now : ℕ
  pub held : Option Held
  pub runs : List Run
  pub next_token : ℕ

-- `SET key token PX ttl NX` succeeds where the key is missing or has expired.
abbrev pub is_free : ℕ → Option Held → Bool
is_free now none = true
is_free now (some h) = leb h.expires_at now

-- `withLock` up to the call of `fn`: the job runs only if the lock was taken.
unfoldable pub with_lock : ℕ → Locks → Locks
with_lock ttl s =
    if is_free s.now s.held
    then record s {
      held = some (record { token = s.next_token; expires_at = s.now + ttl });
      runs = record { token = s.next_token; started_at = s.now } ∷ s.runs;
      next_token = suc s.next_token;
    }
    else record s { next_token = suc s.next_token }

-- The script: the key is deleted if it still has the token.
abbrev pub release_if_owner : ℕ → Option Held → Option Held
release_if_owner token none = none
release_if_owner token (some h) = if h.token == token then none else some h

-- `finally`, when `fn` has returned or thrown.
unfoldable pub release : ℕ → Locks → Locks
release token s = record s {
  held = release_if_owner token s.held;
  runs = filter (λ r. not (r.token == token)) s.runs;
}

-- What can happen next: time passes, an instance asks for the lock, a run ends.
pub data Step (ttl : ℕ) : Locks → Locks → Type 0 where
  wait : (s : Locks) (n : ℕ) → Step ttl s (record s { now = s.now + n })
  ask : (s : Locks) → Step ttl s (with_lock ttl s)
  finish : (s : Locks) (token : ℕ) → Step ttl s (release token s)

pub data Steps (ttl : ℕ) : Locks → Locks → Type 0 where
  done : (s : Locks) → Steps ttl s s
  next : (s t u : Locks) → Steps ttl s t → Step ttl t u → Steps ttl s u

-- A run that has not outlived its lock owns it.
abbrev Owns : ℕ → Locks → Run → Type 0
Owns ttl s r =
    (s.now < r.started_at + ttl)
    → s.held ≡ some (record { token = r.token; expires_at = r.started_at + ttl })

-- The runs that have not outlived their lock.
abbrev pub is_live : ℕ → ℕ → Run → Bool
is_live ttl now r = ltb now (r.started_at + ttl)

abbrev pub live_runs : ℕ → Locks → ℕ
live_runs ttl s = count_rows (is_live ttl s.now) s.runs

pub record IsExclusive (ttl : ℕ) (s : Locks) : Type 0 where
  pub owners : All (Owns ttl s) s.runs
  pub one : live_runs ttl s ≤ 1

none_live :
    (ttl now : ℕ) (runs : List Run)
    → All (λ (r : Run). (now < r.started_at + ttl) → ⊥) runs
    → count_rows (is_live ttl now) runs ≡ 0
none_live ttl now [] h = refl
none_live ttl now (r ∷ rs) h =
    let dead : is_live ttl now r ≡ false = elim (Bool-cases (is_live ttl now r)) [
      | inl live ↦ absurd (h.0 (ground (arith, live)))
      | inr over ↦ over
    ] in
    rw dead (none_live ttl now rs h.1)

fewer_live :
    (ttl now n : ℕ) (runs : List Run)
    → count_rows (is_live ttl (now + n)) runs ≤ count_rows (is_live ttl now) runs
fewer_live ttl now n [] = omega arith
fewer_live ttl now n (r ∷ rs) = ground (arith, fewer_live ttl now n rs)

filter_live :
    (ttl now token : ℕ) (runs : List Run)
    → count_rows (is_live ttl now) (filter (λ r. not (r.token == token)) runs)
      ≤ count_rows (is_live ttl now) runs
filter_live ttl now token [] = omega arith
filter_live ttl now token (r ∷ rs) = ground (arith, filter_live ttl now token rs)

still_busy :
    (now ttl : ℕ) (held : Option Held) (r : Run)
    → is_free now held ≡ true
    → held ≡ some (record { token = r.token; expires_at = r.started_at + ttl })
    → now < r.started_at + ttl
    → ⊥
still_busy now ttl none r free e h = absurd cc
still_busy now ttl (some k) r free e h =
    let same : k ≡ record { token = r.token; expires_at = r.started_at + ttl } = cc in
    let until = ap (λ (x : Held). x.expires_at) same in absurd (ground (arith, until, free, h))

with_lock-IsExclusive :
    (ttl : ℕ) (s : Locks) → IsExclusive ttl s → IsExclusive ttl (with_lock ttl s)
unfolding with_lock
with_lock-IsExclusive ttl s h = elim (Bool-cases (is_free s.now s.held)) [
  | inr busy ↦ rw busy (record { owners = h.owners; one = h.one })
  | inl free ↦
      let over : All (λ (r : Run). (s.now < r.started_at + ttl) → ⊥) s.runs =
        All-map s.runs (λ r own low. still_busy s.now ttl s.held r free (own low) low) h.owners in
      rw free (record {
        owners = ((λ _. refl), All-map s.runs (λ r dead low. absurd (dead low)) over);
        one = ground (arith, none_live ttl s.now s.runs over);
      })
]

kept_owners :
    (ttl token : ℕ) (s : Locks) (runs : List Run)
    → All (Owns ttl s) runs
    → All (Owns ttl (release token s)) (filter (λ r. not (r.token == token)) runs)
unfolding release
kept_owners ttl token s [] h = tt
kept_owners ttl token s (r ∷ rs) h =
    let rest = kept_owners ttl token s rs h.1 in
    elim (Bool-cases (r.token == token)) [
      | inl own ↦ rw own rest
      | inr other ↦ rw other ((λ low. let held = h.0 low in rw held (rw other refl)), rest)
    ]

release-IsExclusive :
    (ttl : ℕ) (s : Locks) (token : ℕ) → IsExclusive ttl s → IsExclusive ttl (release token s)
unfolding release
release-IsExclusive ttl s token h = record {
  owners = kept_owners ttl token s s.runs h.owners;
  one = omega (arith, h.one, filter_live ttl s.now token s.runs);
}

Step-IsExclusive : (ttl : ℕ) (s t : Locks) → Step ttl s t → IsExclusive ttl s → IsExclusive ttl t
Step-IsExclusive ttl s _ (wait _ n) h = record {
  owners = All-map s.runs (λ r own low. own (omega arith)) h.owners;
  one = omega (arith, h.one, fewer_live ttl s.now n s.runs);
}
Step-IsExclusive ttl s _ (ask _) h = with_lock-IsExclusive ttl s h
Step-IsExclusive ttl s _ (finish _ token) h = release-IsExclusive ttl s token h

-- While Redis answers, at most one instance runs a job whose run has not outlived its lock, whatever
-- the order in which the instances ask, run and end, when that held at the start.
pub Steps-IsExclusive :
    (ttl : ℕ) (s t : Locks) → Steps ttl s t → IsExclusive ttl s → IsExclusive ttl t
Steps-IsExclusive ttl s _ (done _) h = h
Steps-IsExclusive ttl s u (next _ t _ before last) h =
    Step-IsExclusive ttl t u last (Steps-IsExclusive ttl s t before h)
