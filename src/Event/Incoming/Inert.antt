-- ===== src/Event/Incoming/Inert.antt =====
-- No message handler of internal/service/event/message.go reaches the session itself.
use onwapp.Base.{
  Option-cases, all, all-append, all-append_of, Str, ◌≡◌, refl, inl, inr, true, some, List, [], ◌∷◌,
  arith,
}
use onwapp.Event.{MessageEvent, Parts, Receipt, WaMessage, absent, message}
use onwapp.Store.Messages.{MessageStatus}
use onwapp.Event.Calls.{received, receipt, media_retry, UpdateType, Env, send_webhook}
use onwapp.Event.Calls.Inert.{is_inert, is_plain, all_plain-is_inert, send_webhook-inert}
use onwapp.Event.Incoming.{
  keep_media, handle_new_message, handle_reaction, handle_protocol_message, handle_message_edit,
  handle_parts, handle_wa, handle_message, receipt_loop, handle_receipt, receipt_status,
  handle_media_retry,
}

pub keep_media-is_plain : (env : Env) (e : MessageEvent) → all is_plain (keep_media env e) ≡ true
unfolding keep_media is_plain
keep_media-is_plain env e = ground arith

handle_new_message-inert :
    (env : Env) (e : MessageEvent) → all is_inert (handle_new_message env e) ≡ true
unfolding handle_new_message is_inert
handle_new_message-inert env e = ground (
  arith,
  all-append is_inert (keep_media env e) (send_webhook env "message.received" (some (received e))),
  all_plain-is_inert (keep_media env e) (keep_media-is_plain env e),
  send_webhook-inert env "message.received" (some (received e)),
)

handle_parts-inert :
    (env : Env) (e : MessageEvent) (p : Parts) → all is_inert (handle_parts env e p) ≡ true
unfolding handle_parts handle_reaction handle_protocol_message handle_message_edit is_inert
handle_parts-inert env e p = ground (
  arith,
  handle_new_message-inert env e,
  send_webhook-inert env "message.reaction" (some (received e)),
  send_webhook-inert env "message.deleted" (some (received e)),
  send_webhook-inert env "message.edited" (some (received e)),
)

handle_wa-inert :
    (env : Env) (e : MessageEvent) (m : WaMessage) → all is_inert (handle_wa env e m) ≡ true
unfolding handle_wa handle_message_edit is_inert
handle_wa-inert env e absent = ground (
  arith,
  handle_new_message-inert env e,
  send_webhook-inert env "message.edited" (some (received e)),
)
handle_wa-inert env e (message p ed v w) = handle_parts-inert env e p

pub handle_message-inert :
    (env : Env) (e : MessageEvent) → all is_inert (handle_message env e) ≡ true
unfolding handle_message
handle_message-inert env e = handle_wa-inert env e e.message

pub receipt_loop-is_plain :
    (r : Receipt) (st : MessageStatus) (kind : UpdateType) (ids : List Str)
    → all is_plain (receipt_loop r st kind ids) ≡ true
unfolding receipt_loop is_plain
receipt_loop-is_plain r st kind [] = refl
receipt_loop-is_plain r st kind (m ∷ ids) = receipt_loop-is_plain r st kind ids

pub handle_receipt-inert : (env : Env) (r : Receipt) → all is_inert (handle_receipt env r) ≡ true
unfolding handle_receipt
handle_receipt-inert env r = elim (Option-cases (receipt_status r.type_)) [
  | inl e ↦ rw (e) (send_webhook-inert env "message.receipt" (some (receipt r)))
  | inr ((st, kind), e) ↦ rw (e) (
      all-append_of is_inert (receipt_loop r st kind r.message_ids) _
        (all_plain-is_inert (receipt_loop r st kind r.message_ids)
          (receipt_loop-is_plain r st kind r.message_ids))
        (send_webhook-inert env "message.receipt" (some (receipt r))))
]

pub handle_media_retry-inert : (env : Env) → all is_inert (handle_media_retry env) ≡ true
unfolding handle_media_retry is_inert
handle_media_retry-inert env =
    ground (arith, send_webhook-inert env "message.media_retry" (some media_retry))
