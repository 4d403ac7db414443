-- ===== src/Ticket/Handler.antt =====
-- internal/api/handler/ticket.go: the handlers on one ticket. `uuid.Parse` and the failures of the
-- database are parameters.
use onwapp.Base.{if◌then◌else◌, Str, is_empty, lookup, delete, ℕ, Bool, Option, none, some, []}
use onwapp.Ticket.{Ticket, TicketStatus, pending, open_, closed, parse_status, is_closed}
use onwapp.Ticket.Repository.{Table, create_row, update_ticket, update_status, update_assignment}

-- What a handler answers. `panicked` is a nil pointer dereference, which gin turns into a 500.
pub data Response : Type 0 where
  success : Ticket → Response
  created : Ticket → Response
  deleted : Response
  bad_request not_found internal_error panicked : Response

-- Which statements fail in the database during a request.
pub record Faults : Type 0 where
  pub read_fails : Bool
  pub write_fails : Bool

pub record CreateTicketReq : Type 0 where
  pub contact_jid : Str
  pub contact_name : Option Str
  pub contact_pic_url : Option Str
  pub queue_id : Option Str
  pub is_group : Bool

pub record UpdateTicketReq : Type 0 where
  pub contact_name : Option Str
  pub contact_pic_url : Option Str
  pub queue_id : Option Str
  pub user_id : Option Str
  pub status : Option Str

-- `if req.Field != nil { ticket.Field = req.Field }`
abbrev given : Option Str → Option Str → Option Str
given none old = old
given (some v) old = some v

module _ (parse_uuid : Str → Option Str) (faults : Faults) where
  -- A reference to a row of another table: absent, cleared by "", set, or ignored if unreadable.
  reference : Option Str → Option Str → Option Str
  reference none old = old
  reference (some s) old =
      if is_empty s then none else elim (parse_uuid s) [ none ↦ old | some id ↦ some id ]

  -- The last lines of `Close`, `Reopen` and `Transfer`: the ticket is read and shown, also where
  -- there is none.
  answer : Str → Table → Response
  answer id t =
      if faults.read_fails
      then internal_error
      else elim (lookup id t) [ none ↦ panicked | some row ↦ success row ]

  -- `Get`
  unfoldable pub get : Str → Table → Response
  get param t = elim (parse_uuid param) [
    | none ↦ bad_request
    | some id ↦
        if faults.read_fails
        then internal_error
        else elim (lookup id t) [ none ↦ not_found | some row ↦ success row ]
  ]

  -- The ticket that `Create` builds.
  unfoldable pub new_ticket : Str → CreateTicketReq → Ticket
  new_ticket session req = record {
    id = [];
    session_id = session;
    contact_jid = req.contact_jid;
    contact_name = req.contact_name;
    contact_pic_url = req.contact_pic_url;
    queue_id = elim req.queue_id [ none ↦ none | some s ↦ parse_uuid s ];
    user_id = none;
    status = pending;
    last_message = none;
    unread_count = 0;
    is_group = req.is_group;
    closed_at = none;
    created_at = 0;
    updated_at = 0;
  }

  -- `Create` in a session whose UUID is known, with the body as it was bound.
  unfoldable pub create : ℕ → Str → Str → Option CreateTicketReq → Table → Table × Response
  unfolding new_ticket
  create now fresh session none t = (t, bad_request)
  create now fresh session (some req) t =
      if faults.write_fails
      then (t, internal_error)
      else let row = new_ticket session req in
        (
          create_row now fresh row t,
          created (record row { id = fresh; created_at = now; updated_at = now }),
        )

  -- The ticket as `Update` changes it in memory.
  changed : ℕ → UpdateTicketReq → Ticket → Ticket
  unfolding reference parse_status
  changed now req row =
      let st : TicketStatus = elim req.status [ none ↦ row.status | some s ↦ parse_status s ] in
      record row {
        contact_name = given req.contact_name row.contact_name;
        contact_pic_url = given req.contact_pic_url row.contact_pic_url;
        queue_id = reference req.queue_id row.queue_id;
        user_id = reference req.user_id row.user_id;
        status = st;
        closed_at = elim req.status [
          | none ↦ row.closed_at
          | some s ↦ if is_closed (parse_status s) then some now else row.closed_at
        ];
      }

  -- Writes a ticket back and shows it.
  save : ℕ → Ticket → Table → Table × Response
  save now row t =
      if faults.write_fails
      then (t, internal_error)
      else (update_ticket now row t, success (record row { updated_at = now }))

  -- `Update`
  unfoldable pub update : ℕ → Str → Option UpdateTicketReq → Table → Table × Response
  unfolding changed save
  update now param req t = elim (parse_uuid param) [
    | none ↦ (t, bad_request)
    | some id ↦ elim req [
      | none ↦ (t, bad_request)
      | some body ↦ if faults.read_fails then (t, internal_error) else elim (lookup id t) [
        | none ↦ (t, not_found)
        | some row ↦ save now (changed now body row) t
      ]
    ]
  ]

  -- `Accept`, by the user's ID of the body, which may be empty
  accept_row : ℕ → Str → Ticket → Table → Table × Response
  unfolding save
  accept_row now user row t =
      if is_empty user then save now (record row { status = open_ }) t else elim (parse_uuid user) [
        | none ↦ (t, bad_request)
        | some u ↦ save now (record row { user_id = some u; status = open_ }) t
      ]

  unfoldable pub accept : ℕ → Str → Option Str → Table → Table × Response
  unfolding accept_row
  accept now param req t = elim (parse_uuid param) [
    | none ↦ (t, bad_request)
    | some id ↦ elim req [
      | none ↦ (t, bad_request)
      | some user ↦
          if faults.read_fails
          then (t, internal_error)
          else elim (lookup id t) [ none ↦ (t, not_found) | some row ↦ accept_row now user row t ]
    ]
  ]

  -- `Close` and `Reopen`
  set_status : TicketStatus → ℕ → Str → Table → Table × Response
  unfolding answer
  set_status st now param t = elim (parse_uuid param) [
    | none ↦ (t, bad_request)
    | some id ↦
        if faults.write_fails
        then (t, internal_error)
        else let t1 = update_status now id st t in (t1, answer id t1)
  ]

  unfoldable pub close : ℕ → Str → Table → Table × Response
  unfolding set_status
  close = set_status closed

  unfoldable pub reopen : ℕ → Str → Table → Table × Response
  unfolding set_status
  reopen = set_status open_

  -- A reference of `Transfer`: absent, empty and unreadable all clear it.
  target : Option Str → Option Str
  target none = none
  target (some s) = if is_empty s then none else parse_uuid s

  -- `Transfer`, by the user and the queue of the body
  unfoldable pub transfer : ℕ → Str → Option (Option Str × Option Str) → Table → Table × Response
  unfolding target answer
  transfer now param req t = elim (parse_uuid param) [
    | none ↦ (t, bad_request)
    | some id ↦ elim req [
      | none ↦ (t, bad_request)
      | some (user, queue) ↦
          if faults.write_fails
          then (t, internal_error)
          else let t1 = update_assignment now id (target user) (target queue) t in
            (t1, answer id t1)
    ]
  ]

  -- `Delete`
  unfoldable pub delete_ticket : Str → Table → Table × Response
  delete_ticket param t = elim (parse_uuid param) [
    | none ↦ (t, bad_request)
    | some id ↦ if faults.write_fails then (t, internal_error) else (delete id t, deleted)
  ]
