-- ===== src/Requests/RateLimiter/Laws.antt =====
-- How many requests of a window pass (src/middlewares/rateLimiter.ts).
use e_commerce_nodejs.Base.{
  ℕ, suc, ◌+◌, ◌≤◌, ◌<◌, ◌≡◌, refl, sym, ap, ◌∙◌, arith, min, Bool, true, false, not, not_both,
  Bool-cases, inl, inr, Option, none, some, List, [], ◌∷◌, All, map, filter, find_by, ltb, leb,
  if◌then◌else◌,
}
use e_commerce_nodejs.Base.Texts.{Text, text_eq, text_eq_refl, text_eq→≡}
use e_commerce_nodejs.Store.{find_by-holds}
use e_commerce_nodejs.Requests.RateLimiter.{
  Bucket, has_key, set_bucket, open_bucket, add_one, increment_memory_counter, Counter, is_counter,
  incr, expire_if_new, increment_redis_counter,
}

-- The counts that a counter gives to arrivals, one after the other, each with its key and time.
abbrev pub counts : {S : Type 0} → (Text → ℕ → S → ℕ × S) → List (Text × ℕ) → S → List ℕ
counts step [] s = []
counts step (a ∷ rest) s = let (n, s') = step a.0 a.1 s in n ∷ counts step rest s'

-- A bucket as Redis keeps it.
abbrev pub as_counter : Bucket → Counter
as_counter b = record { key = b.key; value = b.count; expires_at = some b.reset_at }

filter-as_counter :
    (key : Text) (bs : List Bucket)
    → filter (λ d. not (is_counter key d)) (map as_counter bs)
      ≡ map as_counter (filter (λ c. not (has_key key c)) bs)
filter-as_counter key [] = refl
filter-as_counter key (b ∷ bs) = elim (Bool-cases (text_eq b.key key)) [
  | inl same ↦ rw (same, filter-as_counter key bs) refl
  | inr other ↦ rw (other, filter-as_counter key bs) refl
]

abbrev option_map : Option Bucket → Option Counter
option_map none = none
option_map (some b) = some (as_counter b)

find-as_counter :
    (key : Text) (bs : List Bucket)
    → find_by (is_counter key) (map as_counter bs) ≡ option_map (find_by (has_key key) bs)
find-as_counter key [] = refl
find-as_counter key (b ∷ bs) = elim (Bool-cases (text_eq b.key key)) [
  | inl same ↦ rw same refl
  | inr other ↦ rw other (find-as_counter key bs)
]

-- Every bucket has counted.
abbrev pub Counted : List Bucket → Type 0
Counted bs = All (λ (b : Bucket). 1 ≤ b.count) bs

module _ (key : Text) (window now : ℕ) where
  next_same :
      (o : Option Bucket)
      → ((b : Bucket) → o ≡ some b → 1 ≤ b.count)
      → expire_if_new now window (incr key now (option_map o))
        ≡ as_counter (add_one (open_bucket key now window o))
  next_same none h = refl
  next_same (some b) h = elim (Bool-cases (leb b.reset_at now)) [
    | inl over ↦ rw over refl
    | inr running ↦
        let used = h b refl in
        let old : leb (suc b.count) 1 ≡ false = ground (arith, used) in rw (running, old) refl
  ]

first-Counted : (c b : Bucket) → 1 ≤ c.count → some c ≡ some b → 1 ≤ b.count
first-Counted c b h e = let same : c ≡ b = cc in omega (arith, h, ap (λ (x : Bucket). x.count) same)

found-Counted :
    (p : Bucket → Bool) (bs : List Bucket) (b : Bucket)
    → Counted bs
    → find_by p bs ≡ some b
    → 1 ≤ b.count
found-Counted p [] b h e = absurd cc
found-Counted p (c ∷ cs) b h e = elim (Bool-cases (p c)) [
  | inl hit ↦ let same : some c ≡ some b = rw hit at e in first-Counted c b h.0 same
  | inr miss ↦ found-Counted p cs b h.1 (rw miss at e)
]

filter-Counted : (p : Bucket → Bool) (bs : List Bucket) → Counted bs → Counted (filter p bs)
filter-Counted p [] h = tt
filter-Counted p (b ∷ bs) h =
    let rest = filter-Counted p bs h.1 in
    elim (Bool-cases (p b)) [ inl hit ↦ rw hit (h.0, rest) | inr miss ↦ rw miss rest ]

-- One arrival, in Redis and in the process.
pub redis_step :
    (key : Text) (window now : ℕ) (bs : List Bucket)
    → Counted bs
    → increment_redis_counter key window now (map as_counter bs) ≡ (
      (increment_memory_counter key window now bs).0,
      map as_counter (increment_memory_counter key window now bs).1,
    )
unfolding increment_memory_counter increment_redis_counter
redis_step key window now bs h =
    let b = add_one (open_bucket key now window (find_by (has_key key) bs)) in
    rw
      (
        find-as_counter key bs,
        next_same key window now (find_by (has_key key) bs)
            (λ c e. found-Counted (has_key key) bs c h e),
        filter-as_counter b.key bs,
      )
      refl

pub step-Counted :
    (key : Text) (window now : ℕ) (bs : List Bucket)
    → Counted bs
    → Counted (increment_memory_counter key window now bs).1
unfolding increment_memory_counter
step-Counted key window now bs h = ((omega arith), filter-Counted _ bs h)

-- The counter of the process gives every arrival the number that the script in Redis would give it.
pub memory_as_redis :
    (window : ℕ) (arrivals : List (Text × ℕ)) (bs : List Bucket)
    → Counted bs
    → counts (λ key. increment_memory_counter key window) arrivals bs
      ≡ counts (λ key. increment_redis_counter key window) arrivals (map as_counter bs)
memory_as_redis window [] bs h = refl
memory_as_redis window (a ∷ rest) bs h =
    rw
      (
        redis_step a.0 window a.1 bs h,
        memory_as_redis window rest _ (step-Counted a.0 window a.1 bs h),
      )
      refl

-- The arrivals of a key, and those of them whose count is within a limit.
abbrev pub key_arrivals : Text → List (Text × ℕ) → ℕ
key_arrivals key [] = 0
key_arrivals key (a ∷ rest) = (if text_eq a.0 key then 1 else 0) + key_arrivals key rest

abbrev pub within : ℕ → Text → ℕ → List (Text × ℕ) → List Bucket → ℕ
within limit key window [] bs = 0
within limit key window (a ∷ rest) bs =
    let (n, bs') = increment_memory_counter a.0 window a.1 bs in
    (if text_eq a.0 key then (if ltb limit n then 0 else 1) else 0)
    + within limit key window rest bs'

-- The bucket of one key is not touched by another.
not_same : (a b c : Text) → a ≡ b → text_eq c b ≡ false → text_eq a c ≡ false
not_same a b c e h = elim (Bool-cases (text_eq a c)) [
  | inr no_ ↦ no_
  | inl same ↦ absurd (not_both (text_eq c b) (rw (sym (text_eq→≡ a c same), e) (text_eq_refl b)) h)
]

find_other :
    (key other : Text) (bs : List Bucket)
    → text_eq other key ≡ false
    → find_by (has_key key) (filter (λ c. not (has_key other c)) bs) ≡ find_by (has_key key) bs
find_other key other [] h = refl
find_other key other (b ∷ bs) h =
    let rest = find_other key other bs h in
    elim (Bool-cases (text_eq b.key key)) [
      | inl same ↦
          let off : text_eq b.key other ≡ false =
            not_same b.key key other (text_eq→≡ b.key key same) h in
          rw (off, same) refl
      | inr different ↦ elim (Bool-cases (text_eq b.key other)) [
        | inl dropped ↦ rw (dropped, different) rest
        | inr kept ↦ rw (kept, different) rest
      ]
    ]

open_bucket-key :
    (key : Text) (now window : ℕ) (bs : List Bucket) (o : Option Bucket)
    → find_by (has_key key) bs ≡ o
    → (open_bucket key now window o).key ≡ key
open_bucket-key key now window bs none e = refl
open_bucket-key key now window bs (some b) e = elim (Bool-cases (leb b.reset_at now)) [
  | inl over ↦ rw over refl
  | inr running ↦ rw running (text_eq→≡ b.key key (find_by-holds (has_key key) b bs e))
]

pub within_exactly :
    (limit window : ℕ) (key : Text) (arrivals : List (Text × ℕ)) (bs : List Bucket) (b : Bucket)
    → find_by (has_key key) bs ≡ some b
    → All (λ (a : Text × ℕ). a.1 < b.reset_at) arrivals
    → within limit key window arrivals bs + min limit b.count
      ≡ min limit (b.count + key_arrivals key arrivals)
unfolding increment_memory_counter
within_exactly limit window key [] bs b found h = omega arith
within_exactly limit window key (a ∷ rest) bs b found h = elim (Bool-cases (text_eq a.0 key)) [
  | inl same ↦
      let k : a.0 ≡ key = text_eq→≡ a.0 key same in
      let found_here : find_by (has_key a.0) bs ≡ some b =
        ap (λ (x : Text). find_by (has_key x) bs) k ∙ found in
      let running : leb b.reset_at a.1 ≡ false = ground (arith, h.0) in
      let own : text_eq b.key key ≡ true = find_by-holds (has_key key) b bs found in
      let later =
        within_exactly limit window key rest (set_bucket (add_one b) bs) (add_one b) (rw own refl)
          h.1 in
      rw (same, found_here, running) (ground (arith, later))
  | inr other ↦
      let c = open_bucket a.0 a.1 window (find_by (has_key a.0) bs) in
      let k : c.key ≡ a.0 = open_bucket-key a.0 a.1 window bs _ refl in
      let off : text_eq c.key key ≡ false = ap (λ (x : Text). text_eq x key) k ∙ other in
      let later =
        within_exactly limit window key rest (set_bucket (add_one c) bs) b
          (rw (off, find_other key c.key bs off) found) h.1 in
      rw other (omega (arith, later))
]
