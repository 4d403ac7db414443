-- ===== src/Ticket/Examples.antt =====
-- The theorems on internal/api/handler/ticket.go at a table of one closed ticket.
use onwapp.Base.{
  Str, str_eq, str_eq_iff, lookup, pos, pos_part, ◌*◌, ◌<◌, ◌≡◌, refl, false, Option, none, some,
  [], ◌∷◌, arith,
}
use onwapp.Ticket.{Ticket, closed}
use onwapp.Ticket.Repository.{Table}
use onwapp.Ticket.Handler.{panicked, Faults, UpdateTicketReq, accept, close, reopen}
use onwapp.Ticket.Lifecycle.{
  IsSound, closes, call, call-IsSound, accept_keeps_closed_at, missing_ticket,
}
use onwapp.Ticket.Paging.{pagination, limit_of, offset_of, pagination_lem}

abbrev t1 : Str
t1 = b'1' ∷ []

abbrev row : Ticket
row = record {
  id = t1;
  session_id = b's' ∷ [];
  contact_jid = b'c' ∷ [];
  contact_name = none;
  contact_pic_url = none;
  queue_id = none;
  user_id = none;
  status = closed;
  last_message = none;
  unread_count = 2;
  is_group = false;
  closed_at = some 40;
  created_at = 10;
  updated_at = 40;
}

abbrev table : Table
table = (t1, row) ∷ []

abbrev no_faults : Faults
no_faults = record { read_fails = false; write_fails = false }

abbrev parsed : Str → Option Str
parsed s = some s

abbrev no_change : UpdateTicketReq
no_change = record {
  contact_name = none;
  contact_pic_url = none;
  queue_id = none;
  user_id = none;
  status = none;
}

table-IsSound : IsSound table
unfolding lookup
table-IsSound id r h = ground (arith, str_eq_iff t1 id)

call-IsSound_example : IsSound (call parsed no_faults (closes 50 t1) table)
call-IsSound_example = call-IsSound parsed no_faults (closes 50 t1) table table-IsSound

accept_keeps_closed_at_example :
    (¬ IsSound (accept parsed no_faults 50 t1 (some []) table).0)
    × IsSound (reopen parsed no_faults 50 t1 table).0
unfolding lookup str_eq
accept_keeps_closed_at_example =
    accept_keeps_closed_at parsed no_faults 50 40 t1 t1 row table refl refl refl table-IsSound refl
      refl

missing_ticket_example : close parsed no_faults 50 (b'2' ∷ []) table ≡ (table, panicked)
unfolding lookup str_eq
missing_ticket_example =
    (missing_ticket parsed no_faults 50 (b'2' ∷ []) (b'2' ∷ []) table [] no_change (none, none) refl
      refl refl refl).0

-- The second page of 120 tickets, 50 to a page.
pagination_lem_example :
    let p = pagination none (some (pos 50)) 120 in
    offset_of (some (pos 50)) < pos_part p.page * p.per_page
unfolding limit_of offset_of
pagination_lem_example = (pagination_lem none (some (pos 50)) 120 (omega arith) (omega arith)).5
