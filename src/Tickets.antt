-- ===== src/Tickets.antt =====
-- Support tickets (src/services/ticket/ticket.service.ts).
pub mod AutoClose
pub mod Laws
pub mod Turns
use Prim.Native.String.{String}
use e_commerce_nodejs.Base.{
  ℕ, suc, Bool, true, false, not, ◌&&◌, Option, none, some, List, [], ◌∷◌, length, filter, find_by,
  any, truthy, or_else, ◌==◌, if◌then◌else◌,
}
use e_commerce_nodejs.Store.{
  Media, ApiError, ok, bad_request, not_found, Act, Table, pure, gets, throw_if, or_throw, when,
  ◌>>=◌, ◌>>◌, update_row, create_row,
}
use e_commerce_nodejs.Order.Status.{distinct}
use e_commerce_nodejs.Order.Return.{is_owned}

pub data TicketStatus : Type 0 where
  opened answered closed pending_customer : TicketStatus

pub data TicketPriority : Type 0 where
  low normal high urgent : TicketPriority

pub data SenderType : Type 0 where
  user admin : SenderType

pub data Role : Type 0 where
  administrator editor support customer : Role

pub record Ticket : Type 0 where
  pub id : ℕ
  pub user_id : ℕ
  pub subject : String
  pub department_id : Option ℕ
  pub priority : TicketPriority
  pub order_id : Option ℕ
  pub status : TicketStatus

pub record TicketMessage : Type 0 where
  pub ticket_id : ℕ
  pub sender_id : ℕ
  pub sender_type : SenderType
  pub message : String
  pub attachments : List ℕ
  pub created_at : ℕ

-- The tables that the service reads and writes, newer rows first; a notification is its user.
pub record Desk : Type 0 where
  pub departments : List ℕ
  pub tickets : List Ticket
  pub ticket_seq : ℕ
  pub messages : List TicketMessage
  pub media : List Media
  pub notifications : List ℕ

abbrev pub tickets : Table Desk Ticket
tickets = record { rows = λ s. s.tickets; put = λ rs s. record s { tickets = rs } }

abbrev pub messages : Table Desk TicketMessage
messages = record { rows = λ s. s.messages; put = λ rs s. record s { messages = rs } }

abbrev pub notifications : Table Desk ℕ
notifications = record {
  rows = λ s. s.notifications;
  put = λ rs s. record s { notifications = rs };
}

abbrev pub is_ticket : ℕ → Ticket → Bool
is_ticket id t = t.id == id

abbrev pub is_staff : Role → Bool
is_staff customer = false
is_staff administrator = true
is_staff editor = true
is_staff support = true

-- `if (departmentId)` and the department is not there.
abbrev pub names_no_department : Option ℕ → Desk → Bool
names_no_department none s = false
names_no_department (some id) s = if id == 0 then false else not (any (λ d. d == id) s.departments)

unfoldable pub assert_department : Option ℕ → Act Desk (Unit {0})
assert_department department_id = do
  missing ← gets (names_no_department department_id)
  throw_if missing (bad_request "no such department")

-- `assertMediaOwnedByUser`
abbrev pub has_foreign_media : List ℕ → ℕ → Desk → Bool
has_foreign_media [] user_id s = false
has_foreign_media (m ∷ ms) user_id s =
    not (length (filter (is_owned (m ∷ ms) user_id) s.media) == length (distinct (m ∷ ms)))

unfoldable pub assert_media : List ℕ → ℕ → Act Desk (Unit {0})
assert_media media_ids user_id = do
  foreign ← gets (has_foreign_media media_ids user_id)
  throw_if foreign (bad_request "attachments")

-- `prisma.ticket.create`, with the first message.
unfoldable pub create_ticket_row : (ℕ → Ticket) → (ℕ → TicketMessage) → Act Desk Ticket
create_ticket_row make first s =
    let t = make s.ticket_seq in
    (
      ok t,
      record s {
        tickets = t ∷ s.tickets;
        ticket_seq = suc s.ticket_seq;
        messages = first s.ticket_seq ∷ s.messages;
      },
    )

pub record CreateTicketInput : Type 0 where
  pub subject : String
  pub department_id : Option ℕ
  pub priority : TicketPriority
  pub order_id : Option ℕ
  pub message : String
  pub attachment_media_ids : List ℕ

unfoldable pub create_ticket : ℕ → ℕ → CreateTicketInput → Act Desk Ticket
create_ticket now user_id input = do
  assert_department input.department_id
  assert_media input.attachment_media_ids user_id
  create_ticket_row
      (λ id. record {
        id = id;
        user_id = user_id;
        subject = input.subject;
        department_id = input.department_id;
        priority = input.priority;
        order_id = input.order_id;
        status = opened;
      })
      (λ id. record {
        ticket_id = id;
        sender_id = user_id;
        sender_type = user;
        message = input.message;
        attachments = input.attachment_media_ids;
        created_at = now;
      })

-- A customer sees only the tickets of their own.
abbrev pub is_foreign : ℕ → Role → Ticket → Bool
is_foreign sender_id role t = not (is_staff role) && not (t.user_id == sender_id)

abbrev pub sender_type_of : Role → SenderType
sender_type_of role = if is_staff role then admin else user

abbrev pub status_of : Role → TicketStatus
status_of role = if is_staff role then answered else opened

abbrev pub set_status : TicketStatus → Ticket → Ticket
set_status status t = record t { status = status }

unfoldable pub add_message : ℕ → ℕ → ℕ → Role → String → List ℕ → Act Desk Ticket
add_message now ticket_id sender_id role message media_ids = do
  found ← gets (λ s. find_by (is_ticket ticket_id) s.tickets)
  ticket ← or_throw found (not_found "ticket")
  throw_if (is_foreign sender_id role ticket) (not_found "ticket")
  assert_media media_ids sender_id
  create_row messages record {
    ticket_id = ticket_id;
    sender_id = sender_id;
    sender_type = sender_type_of role;
    message = message;
    attachments = media_ids;
    created_at = now;
  }
  update_row tickets (is_ticket ticket_id) (set_status (status_of role))
  when (is_staff role) (create_row notifications ticket.user_id)
  pure (set_status (status_of role) ticket)

-- `if (userId && ticket.userId !== userId)`
abbrev pub is_hidden_from : Option ℕ → Ticket → Bool
is_hidden_from none t = false
is_hidden_from (some user_id) t = if user_id == 0 then false else not (t.user_id == user_id)

unfoldable pub get_ticket_detail : ℕ → Option ℕ → Act Desk (Ticket × List TicketMessage)
get_ticket_detail ticket_id user_id = do
  found ← gets (λ s. find_by (is_ticket ticket_id) s.tickets)
  ticket ← or_throw found (not_found "ticket")
  throw_if (is_hidden_from user_id ticket) (not_found "ticket")
  said ← gets (λ s. filter (λ m. m.ticket_id == ticket_id) s.messages)
  pure (ticket, said)

pub record UpdateTicketMetaInput : Type 0 where
  pub status : Option TicketStatus
  pub priority : Option TicketPriority
  pub department_id : Option ℕ

abbrev pub or_keep : Option ℕ → Option ℕ → Option ℕ
or_keep none old = old
or_keep (some id) old = some id

-- A column that the input does not name keeps its value.
abbrev pub set_meta : UpdateTicketMetaInput → Ticket → Ticket
set_meta input t = record t {
  status = or_else input.status t.status;
  priority = or_else input.priority t.priority;
  department_id = or_keep input.department_id t.department_id;
}

unfoldable pub update_ticket_meta : ℕ → UpdateTicketMetaInput → Act Desk (Unit {0})
update_ticket_meta ticket_id input = do
  found ← gets (λ s. find_by (is_ticket ticket_id) s.tickets)
  _ ← or_throw found (not_found "ticket")
  assert_department input.department_id
  update_row tickets (is_ticket ticket_id) (set_meta input)
