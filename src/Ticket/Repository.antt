-- ===== src/Ticket/Repository.antt =====
-- internal/db/repository/ticket.go: the rows by their ID. That a statement fails in the database is
-- decided by the handlers' argument.
use onwapp.Base.{
  if◌then◌else◌, Option-cases, Str, str_eq, str_eq_iff, Dict, lookup-insert, lookup, insert, ℕ, ◌+◌,
  ◌≡◌, inl, inr, Bool, Option, none, some, arith,
}
use onwapp.Ticket.{Ticket, TicketStatus, is_closed}

abbrev pub Table : Type 0
Table = Dict Ticket

-- `UPDATE ... WHERE "id" = $1`: nothing happens where the row is missing.
unfoldable pub update_row : Str → (Ticket → Ticket) → Table → Table
update_row id f t = elim (lookup id t) [ none ↦ t | some row ↦ insert id (f row) t ]

-- `Create`: `fresh` is the new UUID; the row must not violate the key on session and contact.
unfoldable pub create_row : ℕ → Str → Ticket → Table → Table
create_row now fresh row t =
    insert fresh (record row { id = fresh; created_at = now; updated_at = now }) t

-- `Update`: the row of this ID and session takes these columns.
unfoldable pub update_ticket : ℕ → Ticket → Table → Table
unfolding update_row
update_ticket now t = update_row t.id λ row.
    if str_eq row.session_id t.session_id
    then record row {
      contact_name = t.contact_name;
      contact_pic_url = t.contact_pic_url;
      queue_id = t.queue_id;
      user_id = t.user_id;
      status = t.status;
      last_message = t.last_message;
      unread_count = t.unread_count;
      closed_at = t.closed_at;
      updated_at = now;
    }
    else row

-- `UpdateStatus`
unfoldable pub update_status : ℕ → Str → TicketStatus → Table → Table
unfolding update_row
update_status now id st = update_row id λ row. record row {
  status = st;
  closed_at = if is_closed st then some now else none;
  updated_at = now;
}

-- `UpdateAssignment`
unfoldable pub update_assignment : ℕ → Str → Option Str → Option Str → Table → Table
unfolding update_row
update_assignment now id user queue =
    update_row id λ row. record row { user_id = user; queue_id = queue; updated_at = now }

-- `UpdateLastMessage`
pub update_last_message : ℕ → Str → Str → Bool → Table → Table
unfolding update_row
update_last_message now id text unread = update_row id λ row. record row {
  last_message = some text;
  updated_at = now;
  unread_count = if unread then row.unread_count + 1 else row.unread_count;
}

-- `ResetUnreadCount`
pub reset_unread_count : ℕ → Str → Table → Table
unfolding update_row
reset_unread_count now id = update_row id λ row. record row { unread_count = 0; updated_at = now }

-- An update reaches the row that it names and no other.
pub lookup-update_row :
    (j id : Str) (f : Ticket → Ticket) (t : Table)
    → lookup j (update_row id f t) ≡ (
        if str_eq id j
        then elim (lookup id t) [ none ↦ none | some row ↦ some (f row) ]
        else lookup j t)
unfolding update_row
lookup-update_row j id f t = elim (Option-cases (lookup id t)) [
  | inl e ↦ ground (arith, str_eq_iff id j)
  | inr (row, e) ↦ ground (arith, lookup-insert j id (f row) t)
]
