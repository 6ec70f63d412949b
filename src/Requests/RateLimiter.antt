-- ===== src/Requests/RateLimiter.antt =====
-- The rate limiter (src/middlewares/rateLimiter.ts): a counter for each key and window, in Redis, or in
-- the process where Redis does not answer.
pub mod Laws
pub mod Passing
use e_commerce_nodejs.Base.{
  ℕ, suc, ◌+◌, ◌-◌, Bool, true, false, not, Option, none, some, List, [], ◌∷◌, ◌++◌, filter,
  find_by, ltb, leb, if◌then◌else◌,
}
use e_commerce_nodejs.Base.Texts.{Text, text_eq}
use e_commerce_nodejs.Store.{Result, ok, err, too_many}

pub record Bucket : Type 0 where
  pub key : Text
  pub count : ℕ
  pub reset_at : ℕ

abbrev pub has_key : Text → Bucket → Bool
has_key key b = text_eq b.key key

-- `memoryBuckets.set`
abbrev pub set_bucket : Bucket → List Bucket → List Bucket
set_bucket b bs = b ∷ filter (λ c. not (has_key b.key c)) bs

abbrev pub fresh_bucket : Text → ℕ → Bucket
fresh_bucket key reset_at = record { key = key; count = 0; reset_at = reset_at }

-- `!bucket || bucket.resetAt <= now`
abbrev pub open_bucket : Text → ℕ → ℕ → Option Bucket → Bucket
open_bucket key now window none = fresh_bucket key (now + window)
open_bucket key now window (some b) =
    if leb b.reset_at now then fresh_bucket key (now + window) else b

abbrev pub add_one : Bucket → Bucket
add_one b = record b { count = suc b.count }

unfoldable pub increment_memory_counter : Text → ℕ → ℕ → List Bucket → ℕ × List Bucket
increment_memory_counter key window now bs =
    let b = add_one (open_bucket key now window (find_by (has_key key) bs)) in
    (b.count, set_bucket b bs)

-- Every five minutes the buckets whose window is over are dropped.
unfoldable pub clean_up : ℕ → List Bucket → List Bucket
clean_up now bs = filter (λ b. not (leb b.reset_at now)) bs

-- A Redis counter; it expires when it has a time to.
pub record Counter : Type 0 where
  pub key : Text
  pub value : ℕ
  pub expires_at : Option ℕ

abbrev pub is_expired : ℕ → Option ℕ → Bool
is_expired now none = false
is_expired now (some t) = leb t now

abbrev pub is_counter : Text → Counter → Bool
is_counter key c = text_eq c.key key

abbrev pub set_counter : Counter → List Counter → List Counter
set_counter c cs = c ∷ filter (λ d. not (is_counter c.key d)) cs

abbrev pub new_counter : Text → Counter
new_counter key = record { key = key; value = 1; expires_at = none }

-- `INCR`: a key that is missing or has expired counts from 0.
abbrev pub incr : Text → ℕ → Option Counter → Counter
incr key now none = new_counter key
incr key now (some c) =
    if is_expired now c.expires_at then new_counter key else record c { value = suc c.value }

-- `PEXPIRE`, where the counter is at 1.
abbrev pub expire_if_new : ℕ → ℕ → Counter → Counter
expire_if_new now window c =
    if leb c.value 1 then record c { expires_at = some (now + window) } else c

-- The script, which Redis runs as one step.
unfoldable pub increment_redis_counter : Text → ℕ → ℕ → List Counter → ℕ × List Counter
increment_redis_counter key window now cs =
    let c = expire_if_new now window (incr key now (find_by (is_counter key) cs)) in
    (c.value, set_counter c cs)

pub record Counters : Type 0 where
  pub memory : List Bucket
  pub redis : List Counter

pub record RateLimitOptions : Type 0 where
  pub window_ms : ℕ
  pub max : ℕ
  pub key_prefix : Text

-- `ratelimit:${keyPrefix}:${identity}`
abbrev pub limit_key : Text → Text → Text
limit_key prefix identity =
    (114 ∷ 97 ∷ 116 ∷ 101 ∷ 108 ∷ 105 ∷ 109 ∷ 105 ∷ 116 ∷ 58 ∷ []) ++ (prefix ++ (58 ∷ identity))

-- A request, by its identity, when it comes, and whether Redis answers.
pub record Arrival : Type 0 where
  pub identity : Text
  pub now : ℕ
  pub redis_ready : Bool

abbrev pub allow : ℕ → ℕ → Result (Unit {0})
allow max count = if ltb max count then err (too_many "too many requests") else ok tt

-- What a request is answered, the header `X-RateLimit-Remaining`, and the counters after it.
unfoldable pub rate_limiter :
    RateLimitOptions → Arrival → Counters → (Result (Unit {0}) × ℕ) × Counters
rate_limiter options a s =
    let key = limit_key options.key_prefix a.identity in
    if a.redis_ready
    then (let (count, redis) = increment_redis_counter key options.window_ms a.now s.redis in
        ((allow options.max count, options.max - count), record s { redis = redis }))
    else (let (count, memory) = increment_memory_counter key options.window_ms a.now s.memory in
        ((allow options.max count, options.max - count), record s { memory = memory }))
