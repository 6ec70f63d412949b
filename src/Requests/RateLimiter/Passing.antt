-- ===== src/Requests/RateLimiter/Passing.antt =====
-- Which requests the rate limiter lets through (src/middlewares/rateLimiter.ts).
use e_commerce_nodejs.Base.{
  ℕ, ◌+◌, ◌<◌, ◌≡◌, refl, sym, min, Bool, true, false, some, List, [], ◌∷◌, ◌++◌, All, map, eq→==,
  find_by, if◌then◌else◌, Bool-cases, inl, inr, ltb, ◌-◌,
}
use e_commerce_nodejs.Base.Texts.{Text, text_eq}
use e_commerce_nodejs.Store.{Result, ok, err}
use e_commerce_nodejs.Requests.RateLimiter.{
  Bucket, has_key, increment_memory_counter, Counters, RateLimitOptions, limit_key, Arrival, allow,
  rate_limiter,
}
use e_commerce_nodejs.Requests.RateLimiter.Laws.{
  as_counter, Counted, key_arrivals, within, within_exactly, redis_step, step-Counted,
}

-- 1 for a request that passes.
abbrev pub through : Result (Unit {0}) → ℕ
through (ok _) = 1
through (err _) = 0

-- The requests of an identity, and those of them that the limiter lets through.
abbrev pub arrivals_of : Text → List Arrival → ℕ
arrivals_of identity [] = 0
arrivals_of identity (a ∷ rest) =
    (if text_eq a.identity identity then 1 else 0) + arrivals_of identity rest

unfoldable pub passed : RateLimitOptions → Text → List Arrival → Counters → ℕ
passed options identity [] s = 0
passed options identity (a ∷ rest) s =
    let r = rate_limiter options a s in
    (if text_eq a.identity identity then through (r.0).0 else 0) + passed options identity rest r.1

-- The counters of the process, or those of Redis, are these buckets.
abbrev pub Keeps : Bool → List Bucket → Counters → Type 0
Keeps false bs s = s.memory ≡ bs
Keeps true bs s = (s.redis ≡ map as_counter bs) × Counted bs

text_eq-append : (p s t : Text) → text_eq (p ++ s) (p ++ t) ≡ text_eq s t
text_eq-append [] s t = refl
text_eq-append (c ∷ p) s t = rw (eq→== c c refl) (text_eq-append p s t)

-- Two identities of one limiter have the same key only if they are the same.
text_eq-limit_key :
    (prefix s t : Text) → text_eq (limit_key prefix s) (limit_key prefix t) ≡ text_eq s t
text_eq-limit_key prefix s t = text_eq-append prefix (58 ∷ s) (58 ∷ t)

module _ (options : RateLimitOptions) (identity : Text) where
  abbrev keyed : List Arrival → List (Text × ℕ)
  keyed arrivals = map (λ (a : Arrival). (limit_key options.key_prefix a.identity, a.now)) arrivals

  keyed-arrivals_of :
      (arrivals : List Arrival)
      → key_arrivals (limit_key options.key_prefix identity) (keyed arrivals)
        ≡ arrivals_of identity arrivals
  keyed-arrivals_of [] = refl
  keyed-arrivals_of (a ∷ rest) =
      rw (text_eq-limit_key options.key_prefix a.identity identity, keyed-arrivals_of rest) refl

  through-allow : (n : ℕ) → through (allow options.max n) ≡ (if ltb options.max n then 0 else 1)
  through-allow n = elim (Bool-cases (ltb options.max n)) [
    | inl more ↦ rw more refl
    | inr fits ↦ rw fits refl
  ]

  -- One arrival, by the counters of the process and by those of Redis.
  abbrev counted : Arrival → List Bucket → ℕ × List Bucket
  counted a bs =
      increment_memory_counter (limit_key options.key_prefix a.identity) options.window_ms a.now bs

  module _ (a : Arrival) (bs : List Bucket) (s : Counters) where
    rate_limiter-memory :
        a.redis_ready ≡ false
        → s.memory ≡ bs
        → rate_limiter options a s ≡ (
          (allow options.max (counted a bs).0, options.max - (counted a bs).0),
          record s { memory = (counted a bs).1 },
        )
    unfolding rate_limiter
    rate_limiter-memory off same = rw (off, same) refl

    rate_limiter-redis :
        a.redis_ready ≡ true
        → s.redis ≡ map as_counter bs
        → Counted bs
        → rate_limiter options a s ≡ (
          (allow options.max (counted a bs).0, options.max - (counted a bs).0),
          record s { redis = map as_counter (counted a bs).1 },
        )
    unfolding rate_limiter
    rate_limiter-redis on same h =
        rw
          (
            on,
            same,
            redis_step (limit_key options.key_prefix a.identity) options.window_ms a.now bs h,
          )
          refl

  passed-within :
      (ready : Bool) (arrivals : List Arrival) (bs : List Bucket) (s : Counters)
      → Keeps ready bs s
      → All (λ (a : Arrival). a.redis_ready ≡ ready) arrivals
      → passed options identity arrivals s
        ≡ within options.max
            (limit_key options.key_prefix identity)
            options.window_ms
            (keyed arrivals)
            bs
  unfolding passed
  passed-within ready [] bs s k h = refl
  passed-within false (a ∷ rest) bs s k h =
      rw
        (
          rate_limiter-memory a bs s h.0 k,
          text_eq-limit_key options.key_prefix a.identity identity,
          through-allow (counted a bs).0,
          passed-within false rest (counted a bs).1 (record s { memory = (counted a bs).1 }) refl
              h.1,
        )
        refl
  passed-within true (a ∷ rest) bs s k h =
      rw
        (
          rate_limiter-redis a bs s h.0 k.0 k.1,
          text_eq-limit_key options.key_prefix a.identity identity,
          through-allow (counted a bs).0,
          passed-within true rest (counted a bs).1
              (record s { redis = map as_counter (counted a bs).1 })
              (refl, step-Counted _ options.window_ms a.now bs k.1) h.1,
        )
        refl

  keyed-before :
      (t : ℕ) (arrivals : List Arrival)
      → All (λ (a : Arrival). a.now < t) arrivals
      → All (λ (p : Text × ℕ). p.1 < t) (keyed arrivals)
  keyed-before t [] h = tt
  keyed-before t (a ∷ rest) h = (h.0, keyed-before t rest h.1)

  -- Whether Redis answers all requests or none of them: while the window of an identity's bucket lasts,
  -- exactly as many requests of that identity pass as the limit leaves after those that it has counted,
  -- whatever other identities ask in between.
  pub passed_exactly :
      (ready : Bool) (arrivals : List Arrival) (bs : List Bucket) (s : Counters) (b : Bucket)
      → Keeps ready bs s
      → find_by (has_key (limit_key options.key_prefix identity)) bs ≡ some b
      → All (λ (a : Arrival). a.redis_ready ≡ ready) arrivals
      → All (λ (a : Arrival). a.now < b.reset_at) arrivals
      → passed options identity arrivals s + min options.max b.count
        ≡ min options.max (b.count + arrivals_of identity arrivals)
  passed_exactly ready arrivals bs s b keeps found all_ready before =
      rw (passed-within ready arrivals bs s keeps all_ready, sym (keyed-arrivals_of arrivals))
        (within_exactly options.max options.window_ms (limit_key options.key_prefix identity)
          (keyed arrivals) bs b found (keyed-before b.reset_at arrivals before))
