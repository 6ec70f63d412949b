-- ===== src/Tests/Platform.antt =====
-- The theorems on tickets, categories and requests at small values.
use e_commerce_nodejs.Base.{
  ℕ, ◌+◌, ◌/◌, ◌≡◌, ◌≤◌, ◌↔◌, refl, arith, min, true, Option, none, some, List, [], ◌∷◌, map,
  if◌then◌else◌, ◌==◌,
}
use e_commerce_nodejs.Base.Int.{pos}
use e_commerce_nodejs.Store.{Returns}
use e_commerce_nodejs.Tickets.{TicketStatus, TicketPriority, SenderType, Role, Desk, add_message}
use e_commerce_nodejs.Tickets.AutoClose.{run_auto_close_tickets_job}
use e_commerce_nodejs.Tickets.Turns.{Written, HasStatus, add_message-Written, add_message-HasStatus}
use e_commerce_nodejs.Catalog.Slugs.{Unicode}
use e_commerce_nodejs.Catalog.Categories.{Category, Taxonomy, CategoryInput, walk}
use e_commerce_nodejs.Catalog.Categories.Forest.{IsForest, some-injective}
use e_commerce_nodejs.Catalog.Categories.Acyclic.{
  call_update, after_category_calls, after_category_calls-IsForest, walk_ends_in_forest,
}
use e_commerce_nodejs.Requests.RateLimiter.{
  Bucket, increment_memory_counter, increment_redis_counter, Counters, RateLimitOptions, limit_key,
  Arrival,
}
use e_commerce_nodejs.Requests.RateLimiter.Laws.{counts, as_counter, memory_as_redis}
use e_commerce_nodejs.Requests.Pagination.{
  Shows, parse_pagination, build_pagination_meta, pages_cover, parse_pagination_bounds,
}
use e_commerce_nodejs.Requests.Lock.{
  Locks, done, next, ask, with_lock, IsExclusive, Steps-IsExclusive,
}
use e_commerce_nodejs.Requests.RateLimiter.Passing.{passed, arrivals_of, passed_exactly}

-- Ticket 1 of customer 5, answered at time 10.
abbrev desk : Desk
desk = record {
  departments = [];
  tickets =
      record {
        id = 1;
        user_id = 5;
        subject = "late";
        department_id = none;
        priority = TicketPriority.normal;
        order_id = none;
        status = TicketStatus.answered;
      }
      ∷ [];
  ticket_seq = 2;
  messages =
      record {
        ticket_id = 1;
        sender_id = 9;
        sender_type = SenderType.admin;
        message = "tomorrow";
        attachments = [];
        created_at = 10;
      }
      ∷ [];
  media = [];
  notifications = [];
}

add_message-Written_example :
    Returns
      (λ _. Written 1 5 Role.customer desk)
      (add_message 20 1 5 Role.customer "thanks" [] desk)
add_message-Written_example = add_message-Written 20 1 5 Role.customer "thanks" [] desk

add_message-HasStatus_example :
    Returns
      (λ _ after.
        HasStatus 1 TicketStatus.opened (run_auto_close_tickets_job 500000000 after).1.tickets)
      (add_message 20 1 5 Role.customer "thanks" [] desk)
add_message-HasStatus_example = add_message-HasStatus 20 500000000 1 5 "thanks" [] desk (tt, tt)

-- Every character is a letter, and has no other case.
abbrev every_letter : Unicode
every_letter = record { is_letter_or_number = λ c. true; to_lower_case = λ s. s }

abbrev shelf : ℕ → Option ℕ → Category
shelf id parent_id = record {
  id = id;
  name = id ∷ [];
  slug = id ∷ [];
  parent_id = parent_id;
  order = 0;
  is_active = true;
}

-- Category 2 below category 1, and category 3 by itself.
abbrev taxonomy : Taxonomy
taxonomy = record {
  categories = shelf 3 none ∷ shelf 2 (some 1) ∷ shelf 1 none ∷ [];
  category_seq = 4;
  attributes = [];
  category_attributes = [];
}

abbrev taxonomy_IsForest : IsForest taxonomy
taxonomy_IsForest = record {
  depth = λ id. if id == 2 then 1 else 0;
  deeper = (
    (λ p h. absurd cc),
    ((λ p h. ground (arith, some-injective 1 p h.0)), ((λ p h. absurd cc), tt)),
  );
  fresh = (
    (omega arith, λ p h. absurd cc),
    (
      (omega arith, λ p h. omega (arith, some-injective 1 p h.0)),
      ((omega arith, λ p h. absurd cc), tt),
    ),
  );
}

abbrev under : ℕ → CategoryInput
under parent_id = record {
  name = none;
  slug = none;
  parent_id = some parent_id;
  order = none;
  is_active = none;
}

after_category_calls-IsForest_example : IsForest (
    after_category_calls 9 every_letter
      (call_update 1 (under 3) ∷ call_update 3 (under 2) ∷ [])
      taxonomy)
after_category_calls-IsForest_example =
    after_category_calls-IsForest 9 every_letter
      (call_update 1 (under 3) ∷ call_update 3 (under 2) ∷ []) taxonomy taxonomy_IsForest

walk_ends_in_forest_example : (ids : List ℕ) × (walk 2 taxonomy.categories [] (1 ∷ []) ≡ some ids)
walk_ends_in_forest_example =
    walk_ends_in_forest 2 1 1 taxonomy taxonomy_IsForest
      (omega arith, (omega arith, (omega arith, tt))) (omega arith) (omega arith)

abbrev bucket : Bucket
bucket = record { key = 7 ∷ []; count = 2; reset_at = 100 }

memory_as_redis_example :
    counts
      (λ key. increment_memory_counter key 50)
      ((7 ∷ [], 20) ∷ (8 ∷ [], 30) ∷ (7 ∷ [], 120) ∷ [])
      (bucket ∷ [])
    ≡ counts
        (λ key. increment_redis_counter key 50)
        ((7 ∷ [], 20) ∷ (8 ∷ [], 30) ∷ (7 ∷ [], 120) ∷ [])
        (map as_counter (bucket ∷ []))
memory_as_redis_example =
    memory_as_redis 50 ((7 ∷ [], 20) ∷ (8 ∷ [], 30) ∷ (7 ∷ [], 120) ∷ []) (bucket ∷ [])
      (omega arith, tt)

-- Two requests of identity 7 and one of identity 8 between them, at most 3 in a window.
abbrev three_at_most : RateLimitOptions
three_at_most = record { window_ms = 50; max = 3; key_prefix = 1 ∷ [] }

abbrev busy : Bucket
busy = record { key = limit_key (1 ∷ []) (7 ∷ []); count = 2; reset_at = 100 }

abbrev busy_counters : Counters
busy_counters = record { memory = []; redis = as_counter busy ∷ [] }

abbrev asks : ℕ → ℕ → Arrival
asks identity now = record { identity = identity ∷ []; now = now; redis_ready = true }

abbrev requests : List Arrival
requests = asks 7 20 ∷ asks 8 30 ∷ asks 7 40 ∷ []

passed_exactly_example :
    passed three_at_most (7 ∷ []) requests busy_counters + min 3 2
    ≡ min 3 (2 + arrivals_of (7 ∷ []) requests)
passed_exactly_example =
    passed_exactly three_at_most (7 ∷ []) true requests (busy ∷ []) busy_counters busy
      (refl, (omega arith, tt)) refl (refl, (refl, (refl, tt)))
      (omega arith, (omega arith, (omega arith, tt)))

parse_pagination_bounds_example :
    (1 ≤ (parse_pagination (some (pos 2)) (some (pos 500))).page)
    × ((1 ≤ (parse_pagination (some (pos 2)) (some (pos 500))).limit)
        × ((parse_pagination (some (pos 2)) (some (pos 500))).limit ≤ 100))
parse_pagination_bounds_example = parse_pagination_bounds (some (pos 2)) (some (pos 500))

pages_cover_example :
    (Shows (parse_pagination (some (pos 2)) none) 25 ↔ (
      (parse_pagination (some (pos 2)) none).page
      ≡ 25 / (parse_pagination (some (pos 2)) none).limit + 1))
    × (25 / (parse_pagination (some (pos 2)) none).limit + 1
        ≤ (build_pagination_meta 30 (parse_pagination (some (pos 2)) none)).total_pages)
pages_cover_example = pages_cover (some (pos 2)) none 25 30 (omega arith)

abbrev idle : Locks
idle = record { now = 0; held = none; runs = []; next_token = 0 }

idle-IsExclusive : IsExclusive 10 idle
idle-IsExclusive = record { owners = tt; one = omega arith }

Steps-IsExclusive_example : IsExclusive 10 (with_lock 10 (with_lock 10 idle))
Steps-IsExclusive_example =
    Steps-IsExclusive 10 idle _ (next _ _ _ (next _ _ _ (done _) (ask _)) (ask _)) idle-IsExclusive
