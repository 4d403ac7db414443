-- ===== src/Event/Incoming/Receipts.antt =====
-- What a receipt of internal/service/event/message.go does to the message table.
use onwapp.Base.{
  if◌then◌else◌, Option-cases, Str, str_eq, one_of, str_eq_refl, str_eq_iff, ℕ, ◌≡◌, refl, ap, ap₂,
  ◌∙◌, inl, inr, Bool, none, some, List, [], ◌∷◌, ◌++◌, append-nil, arith,
}
use onwapp.Store.Messages.{Message, MessageStatus, delivered, read, played, Table, with_status}
use onwapp.Store.Messages.View.{
  Statement, updates_status, view, execute, execute_all, denote, change_at, at_key,
}
use onwapp.Store.Messages.Refinement.{execute-denote}
use onwapp.Event.{ReceiptType, delivery, read_receipt, played_receipt, other_receipt, Receipt}
use onwapp.Event.Calls.{receipt, UpdateType, Env, send_webhook}
use onwapp.Event.Calls.Tables.{
  statement_in, statements, stored, statements-append, statements-send_webhook,
}
use onwapp.Event.Incoming.{receipt_status, receipt_loop, handle_receipt}

-- The statements of the loop.
unfoldable pub status_updates : ℕ → Str → MessageStatus → List Str → List Statement
status_updates now s st [] = []
status_updates now s st (m ∷ ids) = updates_status now s m st ∷ status_updates now s st ids

with_status_twice :
    (now : ℕ) (st : MessageStatus) (row : Message)
    → with_status now st (with_status now st row) ≡ with_status now st row
unfolding with_status
with_status_twice now st row = ground arith

module _ (like : Str → Str → Bool) (now : ℕ) (s : Str) where
  statements-receipt_loop :
      (r : Receipt) (st : MessageStatus) (kind : UpdateType) (ids : List Str)
      → statements like now s (receipt_loop r st kind ids) ≡ status_updates now s st ids
  unfolding statements statement_in receipt_loop status_updates
  statements-receipt_loop r st kind [] = refl
  statements-receipt_loop r st kind (m ∷ ids) =
      ap (λ cs. updates_status now s m st ∷ cs) (statements-receipt_loop r st kind ids)

  view-updates_status :
      (t : Table) (m i : Str) (st : MessageStatus)
      → view (execute (updates_status now s m st) t) s i ≡ elim (view t s i) [
        | none ↦ none
        | some row ↦ if str_eq m i then some (with_status now st row) else some row
      ]
  unfolding denote change_at at_key
  view-updates_status t m i st =
      ground
        (arith, execute-denote (updates_status now s m st) t s i, str_eq_refl s, str_eq_iff m i)

  view-status_updates :
      (ids : List Str) (t : Table) (i : Str) (st : MessageStatus)
      → view (execute_all (status_updates now s st ids) t) s i ≡ elim (view t s i) [
        | none ↦ none
        | some row ↦ if one_of i ids then some (with_status now st row) else some row
      ]
  unfolding execute_all status_updates one_of
  view-status_updates [] t i st = elim (Option-cases (view t s i)) [
    | inl e ↦ rw (e) refl
    | inr (row, e) ↦ rw (e) refl
  ]
  view-status_updates (m ∷ ids) t i st = elim (Option-cases (view t s i)) [
    | inl e ↦ ground (
      arith,
      view-status_updates ids (execute (updates_status now s m st) t) i st,
      view-updates_status t m i st,
    )
    | inr (row, e) ↦ ground (
      arith,
      view-status_updates ids (execute (updates_status now s m st) t) i st,
      view-updates_status t m i st,
      with_status_twice now st row,
      str_eq_iff m i,
      str_eq_iff i m,
    )
  ]

view-handle_receipt_with :
    (like : Str → Str → Bool) (now : ℕ) (env : Env) (r : Receipt) (t : Table) (i : Str)
    {st : MessageStatus} {kind : UpdateType}
    → receipt_status r.type_ ≡ some (st, kind)
    → view (stored like now env.session_id (handle_receipt env r) t) env.session_id i
      ≡ elim (view t env.session_id i) [
        | none ↦ none
        | some row ↦ if one_of i r.message_ids then some (with_status now st row) else some row
      ]
unfolding stored handle_receipt
view-handle_receipt_with like now env r t i {st} {kind} h =
    let s = env.session_id in
    let hook = send_webhook env "message.receipt" (some (receipt r)) in
    let made : statements like now s (receipt_loop r st kind r.message_ids ++ hook)
        ≡ status_updates now s st r.message_ids =
      statements-append like now s (receipt_loop r st kind r.message_ids) hook
      ∙ ap₂ (λ a b. a ++ b) (statements-receipt_loop like now s r st kind r.message_ids)
          (statements-send_webhook like now s env "message.receipt" (some (receipt r)))
      ∙ append-nil (status_updates now s st r.message_ids) in
    rw (h) (
      ap (λ cs. view (execute_all cs t) s i) made
      ∙ view-status_updates like now s r.message_ids t i st)

-- What a receipt of each type says of a message, at a time.
unfoldable pub receipted : ℕ → ReceiptType → Message → Message
receipted now delivery row = record row { status = delivered; delivered_at = some now }
receipted now read_receipt row = record row { status = read; read_at = some now }
receipted now played_receipt row = record row { status = played; read_at = some now }
receipted now other_receipt row = row

receipted_lem :
    (now : ℕ) (type : ReceiptType) (row : Message) {st : MessageStatus} {kind : UpdateType}
    → receipt_status type ≡ some (st, kind)
    → with_status now st row ≡ receipted now type row
unfolding receipted with_status receipt_status
receipted_lem now delivery row h = ground arith
receipted_lem now read_receipt row h = ground arith
receipted_lem now played_receipt row h = ground arith
receipted_lem now other_receipt row h = ground arith

view-other_receipt :
    (like : Str → Str → Bool) (now : ℕ) (env : Env) (r : Receipt) (t : Table)
    → receipt_status r.type_ ≡ none
    → stored like now env.session_id (handle_receipt env r) t ≡ t
unfolding stored handle_receipt execute_all
view-other_receipt like now env r t h =
    rw (h, statements-send_webhook like now env.session_id env "message.receipt" (some (receipt r)))
      refl

receipted_other :
    (now : ℕ) (type : ReceiptType) (row : Message)
    → receipt_status type ≡ none
    → receipted now type row ≡ row
unfolding receipted receipt_status
receipted_other now delivery row h = ground arith
receipted_other now read_receipt row h = ground arith
receipted_other now played_receipt row h = ground arith
receipted_other now other_receipt row h = refl

-- A receipt of delivery makes each message of the session that it lists and the table has delivered
-- at the time of the statement; one of reading or of playing makes it read or played, and read at
-- that time; any other receipt changes nothing. No other message of the session changes, and none
-- is new.
pub view-handle_receipt :
    (like : Str → Str → Bool) (now : ℕ) (env : Env) (r : Receipt) (t : Table) (i : Str)
    → view (stored like now env.session_id (handle_receipt env r) t) env.session_id i
      ≡ elim (view t env.session_id i) [
        | none ↦ none
        | some row ↦ if one_of i r.message_ids then some (receipted now r.type_ row) else some row
      ]
view-handle_receipt like now env r t i = elim (Option-cases (receipt_status r.type_)) [
  | inl h ↦ elim (Option-cases (view t env.session_id i)) [
    | inl e ↦ ground (arith, view-other_receipt like now env r t h)
    | inr (row, e) ↦
        ground (arith, view-other_receipt like now env r t h, receipted_other now r.type_ row h)
  ]
  | inr ((st, kind), h) ↦ elim (Option-cases (view t env.session_id i)) [
    | inl e ↦ ground (arith, view-handle_receipt_with like now env r t i h)
    | inr (row, e) ↦
        ground
          (arith, view-handle_receipt_with like now env r t i h, receipted_lem now r.type_ row h)
  ]
]
