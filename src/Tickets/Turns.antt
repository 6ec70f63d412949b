-- ===== src/Tickets/Turns.antt =====
-- Whose turn a ticket is (addMessage of src/services/ticket/ticket.service.ts, against the job).
use Prim.Native.String.{String}
use e_commerce_nodejs.Base.{
  ℕ, ◌≡◌, refl, Bool, true, false, ◌&&◌, not_both, Bool-cases, Option-cases, inl, inr, some, List,
  [], ◌∷◌, All, find_by, ◌==◌, sym, ◌∙◌, not, not-false, ==→eq,
}
use e_commerce_nodejs.Store.{
  Returns, Returns-map, pure, gets, throw_if, or_throw, when, ◌>>=◌, ◌>>◌, create_row, update_row,
  update_rows, find_by-any, find_by-holds,
}
use e_commerce_nodejs.Tickets.{
  Role, customer, TicketStatus, opened, closed, Ticket, Desk, notifications, is_ticket, is_staff,
  is_foreign, has_foreign_media, assert_media, set_status, status_of, sender_type_of, add_message,
  SenderType, TicketMessage, support, editor, administrator, user, admin, answered,
}
use e_commerce_nodejs.Tickets.AutoClose.{is_answered, is_abandoned, run_auto_close_tickets_job}
use e_commerce_nodejs.Tickets.Laws.{
  DistinctIds, close_abandoned, run_auto_close_tickets_job-close_abandoned,
}

-- Every row of a ticket has a status.
abbrev pub HasStatus : ℕ → TicketStatus → List Ticket → Type 0
HasStatus id status rows = All (λ (t : Ticket). (t.id == id) ≡ true → t.status ≡ status) rows

set_status-HasStatus :
    (id : ℕ) (status : TicketStatus) (rows : List Ticket)
    → HasStatus id status (update_rows (is_ticket id) (set_status status) rows)
set_status-HasStatus id status [] = tt
set_status-HasStatus id status (t ∷ ts) =
    let rest = set_status-HasStatus id status ts in
    elim (Bool-cases (t.id == id)) [
      | inl same ↦ rw same ((λ _. refl), rest)
      | inr other ↦ rw other ((λ h. absurd (not_both _ h other)), rest)
    ]

differ :
    (id : ℕ) (status : TicketStatus) (k : ℕ) (rows : List Ticket)
    → All (λ (u : Ticket). (u.id == k) ≡ false) rows
    → All
        (λ (u : Ticket). (u.id == k) ≡ false)
        (update_rows (is_ticket id) (set_status status) rows)
differ id status k [] h = tt
differ id status k (t ∷ ts) h = elim (Bool-cases (t.id == id)) [
  | inl same ↦ rw same (h.0, differ id status k ts h.1)
  | inr other ↦ rw other (h.0, differ id status k ts h.1)
]

set_status-DistinctIds :
    (id : ℕ) (status : TicketStatus) (rows : List Ticket)
    → DistinctIds rows
    → DistinctIds (update_rows (is_ticket id) (set_status status) rows)
set_status-DistinctIds id status [] h = tt
set_status-DistinctIds id status (t ∷ ts) h = elim (Bool-cases (t.id == id)) [
  | inl same ↦ rw same (differ id status t.id ts h.0, set_status-DistinctIds id status ts h.1)
  | inr other ↦ rw other (differ id status t.id ts h.0, set_status-DistinctIds id status ts h.1)
]

-- The job leaves an open ticket open.
job-HasStatus :
    (p : ℕ → Bool) (id : ℕ) (rows : List Ticket)
    → HasStatus id opened rows
    → HasStatus id opened
        (update_rows (λ t. is_answered t.status && p t.id) (set_status closed) rows)
job-HasStatus p id [] h = tt
job-HasStatus p id (t ∷ ts) h =
    let rest = job-HasStatus p id ts h.1 in
    elim (Bool-cases (t.id == id)) [
      | inl same ↦
          let open_ : (is_answered t.status && p t.id) ≡ false = rw (h.0 same) refl in
          rw open_ ((λ _. h.0 same), rest)
      | inr other ↦ elim (Bool-cases (is_answered t.status && p t.id)) [
        | inl a ↦ rw a ((λ e. absurd (not_both _ e other)), rest)
        | inr a ↦ rw a ((λ e. absurd (not_both _ e other)), rest)
      ]
    ]

module _ (now ticket_id sender_id : ℕ) (role : Role) (message : String) (media_ids : List ℕ)
    (s : Desk) where
  -- What adding a message does to the tables.
  pub record Added (after : Desk) : Type 0 where
    pub ticket : Ticket
    pub named : find_by (is_ticket ticket_id) s.tickets ≡ some ticket
    pub allowed : is_foreign sender_id role ticket ≡ false
    pub rows :
        after.tickets ≡ update_rows (is_ticket ticket_id) (set_status (status_of role)) s.tickets
    pub newest :
        after.messages
        ≡ record {
          ticket_id = ticket_id;
          sender_id = sender_id;
          sender_type = sender_type_of role;
          message = message;
          attachments = media_ids;
          created_at = now;
        }
          ∷ s.messages

  notified :
      (b : Bool) (t : Ticket) (after : Desk)
      → Added after
      → Returns
          (λ _. Added)
          ((when b (create_row notifications t.user_id) >> pure (set_status (status_of role) t))
            after)
  unfolding when create_row pure ◌>>=◌
  notified true t after h = record {
    ticket = h.ticket;
    named = h.named;
    allowed = h.allowed;
    rows = h.rows;
    newest = h.newest;
  }
  notified false t after h = h

  pub add_message-Added :
      Returns (λ _. Added) (add_message now ticket_id sender_id role message media_ids s)
  unfolding add_message assert_media gets or_throw throw_if when pure create_row update_row ◌>>=◌
  add_message-Added = elim (Option-cases (find_by (is_ticket ticket_id) s.tickets)) [
    | inl missing ↦ rw missing tt
    | inr (t, found) ↦ elim (Bool-cases (is_foreign sender_id role t)) [
      | inl foreign ↦ rw (found, foreign) tt
      | inr own ↦ elim (Bool-cases (has_foreign_media media_ids sender_id s)) [
        | inl bad ↦ rw (found, own, bad) tt
        | inr fine ↦
            rw
              (
                found,
                own,
                fine,
                find_by-any (is_ticket ticket_id) (is_ticket ticket_id) t s.tickets found
                    (find_by-holds (is_ticket ticket_id) t s.tickets found),
              )
              (notified (is_staff role) t _
                (record { ticket = t; named = found; allowed = own; rows = refl; newest = refl }))
      ]
    ]
  ]

kept_open :
    (later ticket_id : ℕ) (s after : Desk)
    → DistinctIds s.tickets
    → after.tickets ≡ update_rows (is_ticket ticket_id) (set_status opened) s.tickets
    → HasStatus ticket_id opened (run_auto_close_tickets_job later after).1.tickets
unfolding close_abandoned
kept_open later ticket_id s after h e =
    let distinct : DistinctIds after.tickets =
      rw e (set_status-DistinctIds ticket_id opened s.tickets h) in
    let turn : HasStatus ticket_id opened after.tickets =
      rw e (set_status-HasStatus ticket_id opened s.tickets) in
    rw (run_auto_close_tickets_job-close_abandoned later after distinct)
      (job-HasStatus (is_abandoned later after.messages) ticket_id after.tickets turn)

-- Once a customer has written, the job leaves the ticket open, whenever it runs.
pub add_message-HasStatus :
    (now later ticket_id sender_id : ℕ) (message : String) (media_ids : List ℕ) (s : Desk)
    → DistinctIds s.tickets
    → Returns
        (λ _ after. HasStatus ticket_id opened (run_auto_close_tickets_job later after).1.tickets)
        (add_message now ticket_id sender_id customer message media_ids s)
add_message-HasStatus now later ticket_id sender_id message media_ids s h =
    Returns-map (add_message now ticket_id sender_id customer message media_ids s)
      (λ t after added. kept_open later ticket_id s after h added.rows)
      (add_message-Added now ticket_id sender_id customer message media_ids s)

-- Who may write, and whose turn the ticket then is: a customer on a ticket of their own, and the staff.
pub data MayWrite (sender_id : ℕ) (t : Ticket) : Role → SenderType → TicketStatus → Type 0 where
  by_customer : t.user_id ≡ sender_id → MayWrite sender_id t customer user opened
  by_support : MayWrite sender_id t support admin answered
  by_editor : MayWrite sender_id t editor admin answered
  by_administrator : MayWrite sender_id t administrator admin answered

own_ticket : (a b : ℕ) → not (a == b) ≡ false → a ≡ b
own_ticket a b h = ==→eq a b (not-false (a == b) h)

of_role-MayWrite :
    (sender_id : ℕ) (t : Ticket) (role : Role)
    → is_foreign sender_id role t ≡ false
    → MayWrite sender_id t role (sender_type_of role) (status_of role)
of_role-MayWrite sender_id t customer h = by_customer (own_ticket t.user_id sender_id h)
of_role-MayWrite sender_id t support h = by_support
of_role-MayWrite sender_id t editor h = by_editor
of_role-MayWrite sender_id t administrator h = by_administrator

-- A message of `sender_id` in the role `role` was added to a ticket by one who may write on it, with the
-- turn that this makes it.
pub record Written (ticket_id sender_id : ℕ) (role : Role) (s after : Desk) : Type 0 where
  pub ticket : Ticket
  pub side : SenderType
  pub turn : TicketStatus
  pub named : find_by (is_ticket ticket_id) s.tickets ≡ some ticket
  pub may_write : MayWrite sender_id ticket role side turn
  pub has_turn : HasStatus ticket_id turn after.tickets
  pub others_kept :
      (other : ℕ) (status : TicketStatus)
      → ¬ (other ≡ ticket_id)
      → HasStatus other status s.tickets
      → HasStatus other status after.tickets
  pub message : TicketMessage
  pub newest : after.messages ≡ message ∷ s.messages
  pub by_side : (message.ticket_id ≡ ticket_id) × (message.sender_type ≡ side)

set_status-others :
    (id other : ℕ) (new status : TicketStatus) (rows : List Ticket)
    → ¬ (other ≡ id)
    → HasStatus other status rows
    → HasStatus other status (update_rows (is_ticket id) (set_status new) rows)
set_status-others id other new status [] h k = tt
set_status-others id other new status (t ∷ ts) h k =
    let rest = set_status-others id other new status ts h k.1 in
    elim (Bool-cases (t.id == id)) [
      | inl same ↦ rw same ((λ e. absurd (h (sym (==→eq t.id other e) ∙ ==→eq t.id id same))), rest)
      | inr differs ↦ rw differs (k.0, rest)
    ]

-- Whoever has added a message may write on the ticket: its own customer, or the staff. The message is
-- the newest one, of the sender's side. The ticket is then open where a customer wrote, answered where
-- the staff did, and no other ticket has another status.
pub add_message-Written :
    (now ticket_id sender_id : ℕ) (role : Role) (message : String) (media_ids : List ℕ) (s : Desk)
    → Returns
        (λ _. Written ticket_id sender_id role s)
        (add_message now ticket_id sender_id role message media_ids s)
add_message-Written now ticket_id sender_id role message media_ids s =
    Returns-map (add_message now ticket_id sender_id role message media_ids s)
      (λ t after added. record {
        ticket = added.ticket;
        side = sender_type_of role;
        turn = status_of role;
        named = added.named;
        may_write = of_role-MayWrite sender_id added.ticket role added.allowed;
        has_turn = rw added.rows (set_status-HasStatus ticket_id (status_of role) s.tickets);
        others_kept = λ other status h k.
            rw added.rows (set_status-others ticket_id other (status_of role) status s.tickets h k);
        message = _;
        newest = added.newest;
        by_side = (refl, refl);
      })
      (add_message-Added now ticket_id sender_id role message media_ids s)
