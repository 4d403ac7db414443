-- ===== src/Ticket.antt =====
-- internal/model/ticket.go: a support ticket. Its parts: the table behind
-- internal/db/repository/ticket.go, and the handlers of internal/api/handler/ticket.go.
mod Examples
pub mod Repository
pub mod Handler
pub mod Lifecycle
pub mod Paging
use onwapp.Base.{if◌then◌else◌, Str, lit, str_eq, ℕ, Bool, true, false, Option}

pub data TicketStatus : Type 0 where
  pending open_ closed : TicketStatus
  -- any other text that a client sends as a status
  unknown : Str → TicketStatus

-- Times are numbers; the fields joined from other tables are left out.
pub record Ticket : Type 0 where
  pub id : Str
  pub session_id : Str
  pub contact_jid : Str
  pub contact_name : Option Str
  pub contact_pic_url : Option Str
  pub queue_id : Option Str
  pub user_id : Option Str
  pub status : TicketStatus
  pub last_message : Option Str
  pub unread_count : ℕ
  pub is_group : Bool
  pub closed_at : Option ℕ
  pub created_at : ℕ
  pub updated_at : ℕ

-- `model.TicketStatus(s)`
pub parse_status : Str → TicketStatus
parse_status s =
    if str_eq s (lit "pending")
    then pending
    else if str_eq s (lit "open")
    then open_
    else if str_eq s (lit "closed")
    then closed
    else unknown s

-- `status == model.TicketStatusClosed`
abbrev pub is_closed : TicketStatus → Bool
is_closed closed = true
is_closed _ = false
