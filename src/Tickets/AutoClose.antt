-- ===== src/Tickets/AutoClose.antt =====
-- The job that closes tickets that wait for their customer (src/jobs/auto-close-tickets.job.ts).
use e_commerce_nodejs.Base.{
  ℕ, ◌+◌, ◌*◌, Bool, true, false, not, ◌&&◌, Option, none, some, List, map, filter, find_by, any,
  ltb, ◌==◌,
}
use e_commerce_nodejs.Store.{Act, gets, when, for_each, ◌>>=◌, update_row}
use e_commerce_nodejs.Tickets.{
  TicketStatus, opened, answered, closed, pending_customer, SenderType, user, admin, Ticket,
  TicketMessage, Desk, tickets, is_ticket, set_status,
}

-- `AUTO_CLOSE_DAYS`, in milliseconds.
abbrev pub auto_close_after : ℕ
auto_close_after = 5 * 24 * 60 * 60 * 1000

abbrev pub is_answered : TicketStatus → Bool
is_answered answered = true
is_answered opened = false
is_answered closed = false
is_answered pending_customer = false

abbrev pub is_by_admin : SenderType → Bool
is_by_admin admin = true
is_by_admin user = false

abbrev pub is_old : ℕ → TicketMessage → Bool
is_old now m = ltb (m.created_at + auto_close_after) now

abbrev pub is_admin_message : ℕ → TicketMessage → Bool
is_admin_message id m = (m.ticket_id == id) && is_by_admin m.sender_type

-- The query of the job: answered tickets with some old message of the staff.
abbrev pub is_candidate : ℕ → List TicketMessage → Ticket → Bool
is_candidate now said t =
    is_answered t.status && any (λ m. is_admin_message t.id m && is_old now m) said

abbrev pub is_reply_after : ℕ → TicketMessage → TicketMessage → Bool
is_reply_after id last m =
    (m.ticket_id == id) && (not (is_by_admin m.sender_type) && ltb last.created_at m.created_at)

-- The newest message of the staff is old, and the customer has not replied since.
abbrev pub is_abandoned_after : ℕ → ℕ → List TicketMessage → Option TicketMessage → Bool
is_abandoned_after now id said none = false
is_abandoned_after now id said (some last) =
    is_old now last && not (any (is_reply_after id last) said)

abbrev pub is_abandoned : ℕ → List TicketMessage → ℕ → Bool
is_abandoned now said id = is_abandoned_after now id said (find_by (is_admin_message id) said)

unfoldable pub close_if_abandoned : ℕ → ℕ → Act Desk (Unit {0})
close_if_abandoned now id = do
  abandoned ← gets (λ s. is_abandoned now s.messages id)
  when abandoned (update_row tickets (is_ticket id) (set_status closed))

unfoldable pub run_auto_close_tickets_job : ℕ → Act Desk (Unit {0})
run_auto_close_tickets_job now = do
  ids ← gets (λ s. map (λ t. t.id) (filter (is_candidate now s.messages) s.tickets))
  for_each ids (close_if_abandoned now)
