-- ===== src/Tickets/Laws.antt =====
-- Who waits for whom (src/services/ticket/ticket.service.ts, src/jobs/auto-close-tickets.job.ts).
use e_commerce_nodejs.Base.{
  ℕ, ◌≡◌, refl, Bool, true, false, ◌&&◌, and_false, and_true, not_both, or_later, Bool-cases,
  Option-cases, inl, inr, eq→==, ==-flip, ==→eq, List, [], ◌∷◌, All, All-map, All-both, map, filter,
  find_by, any, includes, ◌==◌,
}
use e_commerce_nodejs.Store.{
  ok, gets, when, for_each, ◌>>=◌, update_row, update_rows, find_by-any, find_by-holds,
}
use e_commerce_nodejs.Tickets.{closed, Ticket, TicketMessage, Desk, is_ticket, set_status}
use e_commerce_nodejs.Tickets.AutoClose.{
  is_answered, is_abandoned, is_admin_message, is_old, is_candidate, close_if_abandoned,
  run_auto_close_tickets_job,
}

-- What the job is for, in one pass: an answered ticket that its customer abandoned is closed.
unfoldable pub close_abandoned : ℕ → Desk → Desk
close_abandoned now s = record s {
  tickets =
      update_rows (λ t. is_answered t.status && is_abandoned now s.messages t.id)
        (set_status closed) s.tickets;
}

-- The ids of the tickets differ, as a primary key's do.
abbrev pub DistinctIds : List Ticket → Type 0
DistinctIds [] = Unit
DistinctIds (t ∷ ts) = All (λ (u : Ticket). (u.id == t.id) ≡ false) ts × DistinctIds ts

-- The tickets once the abandoned ones among some ids are closed.
abbrev among : ℕ → List TicketMessage → List ℕ → Ticket → Bool
among now said ids t = includes t.id ids && is_abandoned now said t.id

module _ (now : ℕ) (said : List TicketMessage) where
  close_one :
      (id : ℕ) (ids : List ℕ) (rows : List Ticket)
      → is_abandoned now said id ≡ true
      → update_rows
          (among now said ids)
          (set_status closed)
          (update_rows (is_ticket id) (set_status closed) rows)
        ≡ update_rows (among now said (id ∷ ids)) (set_status closed) rows
  close_one id ids [] h = refl
  close_one id ids (t ∷ ts) h =
      let rest = close_one id ids ts h in
      elim (Bool-cases (t.id == id)) [
        | inl same ↦ elim (Bool-cases (among now said ids t)) [
          | inl a ↦ rw (rest, same, a) (rw (==→eq t.id id same, h, eq→== id id refl) refl)
          | inr a ↦ rw (rest, same, a) (rw (==→eq t.id id same, h, eq→== id id refl) refl)
        ]
        | inr other ↦ rw (rest, other, ==-flip id t.id, other) refl
      ]

  close_none :
      (id : ℕ) (ids : List ℕ) (rows : List Ticket)
      → is_abandoned now said id ≡ false
      → update_rows (among now said ids) (set_status closed) rows
        ≡ update_rows (among now said (id ∷ ids)) (set_status closed) rows
  close_none id ids [] h = refl
  close_none id ids (t ∷ ts) h =
      let rest = close_none id ids ts h in
      elim (Bool-cases (t.id == id)) [
        | inl same ↦
            let off : is_abandoned now said t.id ≡ false = rw (==→eq t.id id same) h in
            rw
              (
                rest,
                among,
                off,
                and_false (includes t.id ids),
                and_false (includes t.id (id ∷ ids)),
              )
              refl
        | inr other ↦ rw (rest, ==-flip id t.id, other) refl
      ]

  none_among :
      (rows : List Ticket) → update_rows (among now said []) (set_status closed) rows ≡ rows
  none_among [] = refl
  none_among (t ∷ ts) = rw (none_among ts) refl

any_kept :
    (id other : ℕ) (rows : List Ticket)
    → any (is_ticket id) (update_rows (is_ticket other) (set_status closed) rows)
      ≡ any (is_ticket id) rows
any_kept id other [] = refl
any_kept id other (t ∷ ts) = elim (Bool-cases (is_ticket other t)) [
  | inl same ↦ rw (same, any_kept id other ts) refl
  | inr different ↦ rw (different, any_kept id other ts) refl
]

abbrev Known : List Ticket → List ℕ → Type 0
Known rows ids = All (λ id. any (is_ticket id) rows ≡ true) ids

-- The loop of the job over the ids that it read.
close_all :
    (now : ℕ) (ids : List ℕ) (s : Desk)
    → Known s.tickets ids
    → for_each ids (close_if_abandoned now) s ≡ (
      ok tt,
      record s { tickets = update_rows (among now s.messages ids) (set_status closed) s.tickets },
    )
unfolding for_each close_if_abandoned gets when update_row ◌>>=◌
close_all now [] s h = rw (none_among now s.messages s.tickets) refl
close_all now (id ∷ ids) s h = elim (Bool-cases (is_abandoned now s.messages id)) [
  | inl gone ↦
      rw
        (
          gone,
          h.0,
          close_all now ids
              (record s { tickets = update_rows (is_ticket id) (set_status closed) s.tickets })
              (All-map ids (λ other there. rw (any_kept other id s.tickets) there) h.1),
          close_one now s.messages id ids s.tickets gone,
        )
        refl
  | inr kept ↦
      rw (kept, close_all now ids s h.1, close_none now s.messages id ids s.tickets kept) refl
]

absent :
    (p : Ticket → Bool) (k : ℕ) (rows : List Ticket)
    → All (λ (u : Ticket). (u.id == k) ≡ false) rows
    → includes k (map (λ (t : Ticket). t.id) (filter p rows)) ≡ false
absent p k [] h = refl
absent p k (t ∷ ts) h = elim (Bool-cases (p t)) [
  | inl in_ ↦ rw (in_, h.0) (absent p k ts h.1)
  | inr out ↦ rw out (absent p k ts h.1)
]

-- With distinct ids, the ids read by a query name the rows of the query.
selected :
    (p : Ticket → Bool) (rows : List Ticket)
    → DistinctIds rows
    → All (λ t. includes t.id (map (λ (u : Ticket). u.id) (filter p rows)) ≡ p t) rows
selected p [] h = tt
selected p (t ∷ ts) h =
    let rest = All-both _ _ ts h.0 (selected p ts h.1) in
    elim (Bool-cases (p t)) [
      | inl in_ ↦ (
        rw (in_, eq→== t.id t.id refl) refl,
        All-map ts (λ u k. rw (in_, ==-flip t.id u.id, k.0) k.1) rest,
      )
      | inr out ↦ (rw out (absent p t.id ts h.0), All-map ts (λ u k. rw out k.1) rest)
    ]

known :
    (p : Ticket → Bool) (rows : List Ticket)
    → Known rows (map (λ (u : Ticket). u.id) (filter p rows))
known p [] = tt
known p (t ∷ ts) =
    let rest : Known (t ∷ ts) (map (λ (u : Ticket). u.id) (filter p ts)) =
      All-map _ (λ id there. or_later (t.id == id) _ there) (known p ts) in
    elim (Bool-cases (p t)) [
      | inl in_ ↦ rw in_ (rw (eq→== t.id t.id refl) refl, rest)
      | inr out ↦ rw out rest
    ]

update_rows-agree :
    {A : Type 0} (p q : A → Bool) (f : A → A) (rows : List A)
    → All (λ x. p x ≡ q x) rows
    → update_rows p f rows ≡ update_rows q f rows
update_rows-agree p q f [] h = refl
update_rows-agree p q f (x ∷ xs) h = rw (h.0, update_rows-agree p q f xs h.1) refl

-- An abandoned ticket has an old message of the staff.
abandoned_old :
    (now : ℕ) (said : List TicketMessage) (id : ℕ)
    → is_abandoned now said id ≡ true
    → any (λ m. is_admin_message id m && is_old now m) said ≡ true
abandoned_old now said id h = elim (Option-cases (find_by (is_admin_message id) said)) [
  | inl none_found ↦ absurd (not_both false (rw none_found at h) refl)
  | inr (last, found) ↦
      let (old, _) = and_true (is_old now last) _ (rw found at h) in
      find_by-any (is_admin_message id) (λ m. is_admin_message id m && is_old now m) last said found
        (rw (find_by-holds (is_admin_message id) last said found, old) refl)
]

drop_true : (a : Bool) → a && true && true ≡ a && true
drop_true true = refl
drop_true false = refl

is_candidate-is_abandoned :
    (now : ℕ) (said : List TicketMessage) (t : Ticket)
    → is_candidate now said t && is_abandoned now said t.id
      ≡ is_answered t.status && is_abandoned now said t.id
is_candidate-is_abandoned now said t = elim (Bool-cases (is_abandoned now said t.id)) [
  | inl gone ↦ rw (gone, abandoned_old now said t.id gone) (drop_true (is_answered t.status))
  | inr kept ↦ rw (kept, and_false (is_answered t.status), and_false (is_candidate now said t)) refl
]

pub run_auto_close_tickets_job-close_abandoned :
    (now : ℕ) (s : Desk)
    → DistinctIds s.tickets
    → run_auto_close_tickets_job now s ≡ (ok tt, close_abandoned now s)
unfolding run_auto_close_tickets_job close_abandoned gets ◌>>=◌
run_auto_close_tickets_job-close_abandoned now s h =
    let p = is_candidate now s.messages in
    let ids = map (λ (t : Ticket). t.id) (filter p s.tickets) in
    rw
      (
        close_all now ids s (known p s.tickets),
        update_rows-agree (among now s.messages ids)
            (λ t. is_answered t.status && is_abandoned now s.messages t.id) (set_status closed)
            s.tickets
            (All-map s.tickets (λ t e. rw e (is_candidate-is_abandoned now s.messages t))
              (selected p s.tickets h)),
      )
      refl
