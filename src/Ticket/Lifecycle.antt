-- ===== src/Ticket/Lifecycle.antt =====
-- When a ticket of internal/api/handler/ticket.go has a closing time.
use onwapp.Base.{
  Bool-cases, Option-cases, Str, str_eq, str_eq_refl, str_eq_iff, lookup-insert, lookup-delete,
  lookup, ℕ, ◌≡◌, refl, sym, ap, subst, ◌∙◌, inl, inr, Bool, true, false, Option, none, some, [],
  arith,
}
use onwapp.Ticket.{Ticket, TicketStatus, open_, closed, is_closed}
use onwapp.Ticket.Repository.{
  Table, create_row, update_ticket, update_status, update_assignment, update_row, lookup-update_row,
}
use onwapp.Ticket.Handler.{
  not_found, panicked, Faults, CreateTicketReq, UpdateTicketReq, get, create, update, accept, close,
  reopen, transfer, delete_ticket, new_ticket,
}

abbrev is_some : Option ℕ → Bool
is_some none = false
is_some (some n) = true

-- A ticket has a closing time exactly if it is closed.
abbrev pub IsConsistent : Ticket → Type 0
IsConsistent t = is_closed t.status ≡ is_some t.closed_at

-- Each row stands under its ID and is consistent.
abbrev pub IsSound : Table → Type 0
IsSound t = (id : Str) (row : Ticket) → lookup id t ≡ some row → (row.id ≡ id) × IsConsistent row

update_row-IsSound :
    (id : Str) (f : Ticket → Ticket) (t : Table)
    → ((row : Ticket) → (row.id ≡ id) × IsConsistent row → ((f row).id ≡ id) × IsConsistent (f row))
    → IsSound t
    → IsSound (update_row id f t)
update_row-IsSound id f t keeps s j row h = elim (Bool-cases (str_eq id j)) [
  | inr miss ↦ s j row (rw (lookup-update_row j id f t, miss) at h)
  | inl hit ↦ elim (Option-cases (lookup id t)) [
    | inl e ↦ cc (rw (lookup-update_row j id f t, hit, e) at h)
    | inr (old, e) ↦
        let new : f old ≡ row = ground (arith, lookup-update_row j id f t) in
        subst (λ r. (r.id ≡ j) × IsConsistent r) new
          (subst (λ i. ((f old).id ≡ i) × IsConsistent (f old)) ((str_eq_iff id j).0 hit)
            (keeps old (s id old e)))
  ]
]

create_row-IsSound :
    (now : ℕ) (fresh : Str) (row : Ticket) (t : Table)
    → IsConsistent row
    → IsSound t
    → IsSound (create_row now fresh row t)
unfolding create_row
create_row-IsSound now fresh row t c s j r h = ground (
  arith,
  lookup-insert j fresh (record row { id = fresh; created_at = now; updated_at = now }) t,
  str_eq_iff fresh j,
  s j r,
)

-- The calls that set the status by the table's own statements, and those that leave it alone.
pub data Call : Type 0 where
  creates : ℕ → Str → Str → Option CreateTicketReq → Call
  closes reopens : ℕ → Str → Call
  transfers : ℕ → Str → Option (Option Str × Option Str) → Call
  deletes : Str → Call

lookup-accepted :
    (now : ℕ) (id : Str) (row : Ticket) (t : Table)
    → row.id ≡ id
    → lookup id t ≡ some row
    → lookup id (update_ticket now (record row { status = open_ }) t)
      ≡ some (record row { status = open_; updated_at = now })
unfolding update_ticket
lookup-accepted now id row t same found = rw (lookup-update_row id row.id _ t) (
    ground (
      arith,
      str_eq_iff row.id id,
      str_eq_refl row.session_id,
      subst (λ i. lookup i t ≡ some row) (sym same) found,
    ))

module _ (parse_uuid : Str → Option Str) (faults : Faults) where
  pub call : Call → Table → Table
  call (creates now fresh session req) t = (create parse_uuid faults now fresh session req t).0
  call (closes now param) t = (close parse_uuid faults now param t).0
  call (reopens now param) t = (reopen parse_uuid faults now param t).0
  call (transfers now param req) t = (transfer parse_uuid faults now param req t).0
  call (deletes param) t = (delete_ticket parse_uuid faults param t).0

  update_status-IsSound :
      (now : ℕ) (id : Str) (st : TicketStatus) (t : Table)
      → IsSound t
      → IsSound (update_status now id st t)
  unfolding update_status
  update_status-IsSound now id st t s = update_row-IsSound id _ t (λ row h. (h.0, ground arith)) s

  -- If each row of the table stands under its ID and has a closing time exactly if it is closed,
  -- that is so after `Create`, `Close`, `Reopen`, `Transfer` and `Delete`, on every branch.
  pub call-IsSound : (c : Call) (t : Table) → IsSound t → IsSound (call c t)
  unfolding call create new_ticket create_row close reopen transfer update_assignment delete_ticket
  call-IsSound (creates now fresh session none) t s = s
  call-IsSound (creates now fresh session (some req)) t s = elim (Bool-cases faults.write_fails) [
    | inl e ↦ rw (e, create, call) s
    | inr e ↦
        rw (e, create, call)
          (create_row-IsSound now fresh (new_ticket parse_uuid faults session req) t refl s)
  ]
  call-IsSound (closes now param) t s = elim (Option-cases (parse_uuid param)) [
    | inl e ↦ rw (e, close, call) s
    | inr (id, e) ↦ elim (Bool-cases faults.write_fails) [
      | inl f ↦ rw (e, f, close, call) s
      | inr f ↦ rw (e, f, close, call) (update_status-IsSound now id closed t s)
    ]
  ]
  call-IsSound (reopens now param) t s = elim (Option-cases (parse_uuid param)) [
    | inl e ↦ rw (e, reopen, call) s
    | inr (id, e) ↦ elim (Bool-cases faults.write_fails) [
      | inl f ↦ rw (e, f, reopen, call) s
      | inr f ↦ rw (e, f, reopen, call) (update_status-IsSound now id open_ t s)
    ]
  ]
  call-IsSound (transfers now param none) t s = elim (Option-cases (parse_uuid param)) [
    | inl e ↦ rw (e, transfer, call) s
    | inr (id, e) ↦ rw (e, transfer, call) s
  ]
  call-IsSound (transfers now param (some (user, queue))) t s =
      elim (Option-cases (parse_uuid param)) [
        | inl e ↦ rw (e, transfer, call) s
        | inr (id, e) ↦ elim (Bool-cases faults.write_fails) [
          | inl f ↦ rw (e, f, transfer, call) s
          | inr f ↦ rw (e, f, transfer, call) (update_row-IsSound id _ t (λ row h. h) s)
        ]
      ]
  call-IsSound (deletes param) t s = elim (Option-cases (parse_uuid param)) [
    | inl e ↦ rw (e, delete_ticket, call) s
    | inr (id, e) ↦ elim (Bool-cases faults.write_fails) [
      | inl f ↦ rw (e, f, delete_ticket, call) s
      | inr f ↦
          rw (e, f, delete_ticket, call) λ j row h. ground (arith, lookup-delete j id t, s j row)
    ]
  ]

  accepted :
      (now : ℕ) (param id : Str) (row : Ticket) (t : Table)
      → parse_uuid param ≡ some id
      → faults.read_fails ≡ false
      → faults.write_fails ≡ false
      → lookup id t ≡ some row
      → (accept parse_uuid faults now param (some []) t).0
        ≡ update_ticket now (record row { status = open_ }) t
  unfolding accept
  accepted now param id row t e r w found = ground arith

  -- Where the database does not fail, `Accept` without a user of a closed ticket with a closing
  -- time leaves a table in which not every closing time belongs to a closed ticket; `Reopen` of
  -- the same ticket keeps that so.
  pub accept_keeps_closed_at :
      (now at : ℕ) (param id : Str) (row : Ticket) (t : Table)
      → parse_uuid param ≡ some id
      → faults.read_fails ≡ false
      → faults.write_fails ≡ false
      → IsSound t
      → lookup id t ≡ some row
      → row.closed_at ≡ some at
      → (¬ IsSound (accept parse_uuid faults now param (some []) t).0)
        × IsSound (reopen parse_uuid faults now param t).0
  unfolding accept call
  accept_keeps_closed_at now at param id row t e r w s found c = (
    λ sound.
        let opened = accepted now param id row t e r w found in
        cc
          (sound id (record row { status = open_; updated_at = now })
            (ap (λ u. lookup id u) opened
              ∙ lookup-accepted now id row t (s id row found).0 found)).1,
    call-IsSound (reopens now param) t s,
  )

  -- Where the database does not fail, `Close`, `Reopen` and `Transfer` of a ticket that is not
  -- there change nothing and dereference a nil pointer, and `Get`, `Update` and `Accept` answer
  -- that there is no such ticket.
  pub missing_ticket :
      (now : ℕ) (param id : Str) (t : Table) (user : Str) (body : UpdateTicketReq)
      (to : Option Str × Option Str)
      → parse_uuid param ≡ some id
      → faults.read_fails ≡ false
      → faults.write_fails ≡ false
      → lookup id t ≡ none
      → (close parse_uuid faults now param t ≡ (t, panicked))
        × (reopen parse_uuid faults now param t ≡ (t, panicked))
        × (transfer parse_uuid faults now param (some to) t ≡ (t, panicked))
        × (get parse_uuid faults param t ≡ not_found)
        × (update parse_uuid faults now param (some body) t ≡ (t, not_found))
        × (accept parse_uuid faults now param (some user) t ≡ (t, not_found))
  unfolding close reopen transfer get update accept update_status update_assignment
  missing_ticket now param id t user body to e r w h = ground arith
