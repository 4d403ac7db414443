-- ===== src/Event/Service/Webhooks.antt =====
-- The webhooks of internal/service/event: which events send one, and under which name.
use Prim.Native.String.{String}
use onwapp.Base.{
  if◌then◌else◌, Option-cases, all, all-append_of, Str, ◌≡◌, refl, inl, inr, true, Option, none,
  some, List, [], ◌∷◌, ◌++◌, arith,
}
use onwapp.Event.{MessageEvent, Parts, WaMessage, absent, message, Receipt}
use onwapp.Event.Calls.{
  send_webhook, Event, connected_event, logged_out, lost, connection, received, receipt,
  undecryptable, media_retry, chat, HistorySync, push_names, conversations, history_sync,
  call_offer, call, profile, quiet, Call, increments_unread, Env,
}
use onwapp.Event.Calls.Inert.{
  is_plain, name_in, names, names_plain, announced, names-send_webhook, names_plain-send_webhook,
}
use onwapp.Event.Calls.Names.{chat_name, call_name, profile_name}
use onwapp.Event.Incoming.{
  keep_media, handle_new_message, handle_reaction, handle_protocol_message, handle_message_edit,
  handle_parts, handle_wa, handle_message, receipt_loop, handle_receipt, receipt_status,
  handle_undecryptable_message, handle_media_retry,
}
use onwapp.Event.Incoming.Inert.{keep_media-is_plain, receipt_loop-is_plain}
use onwapp.Event.History.PushNames.{handle_push_name_sync}
use onwapp.Event.History.{sync_conversations, handle_history_sync}
use onwapp.Event.History.Inert.{handle_push_name_sync-is_plain, sync_conversations-is_plain}
use onwapp.Event.Connection.{
  store_jid, prepare_settings, handle_connected, lost_name, lost_raw, handle_lost, drop_client,
  handle_logged_out, connection_name, handle_connection,
}
use onwapp.Event.Service.{handle_chat, handle_call, handle_profile, handle_call_offer, handle_event}
use onwapp.Event.Service.EventNames.{
  is_unknown, content_name, message_name, event_name, lost_name_lem, connection_name_lem,
  chat_name_lem, call_name_lem, profile_name_lem,
}

-- The webhooks of an event of this name.
unfoldable pub announces : Env → Option String → List Str
unfolding announced
announces env none = []
announces env (some name) = announced env name

-- What a new message does between its timestamp and the webhook.
abbrev counts : Env → MessageEvent → List Call
counts env e = (if e.is_from_me then [] else increments_unread e.chat ∷ []) ++ keep_media env e

counts-is_plain : (env : Env) (e : MessageEvent) → all is_plain (counts env e) ≡ true
unfolding is_plain
counts-is_plain env e =
    all-append_of is_plain (if e.is_from_me then [] else increments_unread e.chat ∷ [])
      (keep_media env e) (ground arith) (keep_media-is_plain env e)

names-handle_new_message :
    (env : Env) (e : MessageEvent)
    → names (handle_new_message env e)
      ≡ announces env (if is_unknown e then none else some "message.received")
unfolding handle_new_message is_unknown announces names name_in
names-handle_new_message env e = ground (
  arith,
  names_plain-send_webhook (counts env e) env "message.received" (some (received e))
      (counts-is_plain env e),
)

names-handle_message_edit :
    (env : Env) (e : MessageEvent)
    → names (handle_message_edit env e) ≡ announced env "message.edited"
unfolding handle_message_edit names name_in
names-handle_message_edit env e = names-send_webhook env "message.edited" (some (received e))

names-handle_content :
    (env : Env) (e : MessageEvent)
    → names (if e.is_edit then handle_message_edit env e else handle_new_message env e)
      ≡ announces env (content_name e)
unfolding content_name announces
names-handle_content env e =
    ground (arith, names-handle_new_message env e, names-handle_message_edit env e)

names-handle_parts :
    (env : Env) (e : MessageEvent) (p : Parts) (ed v w : WaMessage)
    → names (handle_parts env e p) ≡ announces env (message_name e (message p ed v w))
unfolding handle_parts handle_reaction handle_protocol_message message_name names name_in announces
names-handle_parts env e p ed v w = ground (
  arith,
  names-handle_content env e,
  names-send_webhook env "message.reaction" (some (received e)),
  names-send_webhook env "message.deleted" (some (received e)),
)

names-handle_wa :
    (env : Env) (e : MessageEvent) (m : WaMessage)
    → names (handle_wa env e m) ≡ announces env (message_name e m)
unfolding handle_wa message_name
names-handle_wa env e absent = names-handle_content env e
names-handle_wa env e (message p ed v w) = names-handle_parts env e p ed v w

names-handle_receipt :
    (env : Env) (r : Receipt) → names (handle_receipt env r) ≡ announced env "message.receipt"
unfolding handle_receipt
names-handle_receipt env r = elim (Option-cases (receipt_status r.type_)) [
  | inl e ↦ rw (e) (names-send_webhook env "message.receipt" (some (receipt r)))
  | inr ((st, kind), e) ↦ rw (e) (
      names_plain-send_webhook (receipt_loop r st kind r.message_ids) env "message.receipt"
        (some (receipt r)) (receipt_loop-is_plain r st kind r.message_ids))
]

names-handle_connected :
    (env : Env) → names (handle_connected env) ≡ announced env "session.connected"
unfolding handle_connected store_jid prepare_settings names name_in
names-handle_connected env = ground (arith, names-send_webhook env "session.connected" none)

names-handle_logged_out :
    (env : Env) → names (handle_logged_out env) ≡ announced env "session.logged_out"
unfolding handle_logged_out drop_client names name_in
names-handle_logged_out env =
    ground (arith, names-send_webhook env "session.logged_out" (some logged_out))

names-handle_media_retry :
    (env : Env) → names (handle_media_retry env) ≡ announced env "message.media_retry"
unfolding handle_media_retry names name_in
names-handle_media_retry env =
    ground (arith, names-send_webhook env "message.media_retry" (some media_retry))

names-handle_call_offer :
    (env : Env) (creator id : Str)
    → names (handle_call_offer env creator id) ≡ announced env "call.offer"
unfolding handle_call_offer names name_in
names-handle_call_offer env creator id =
    ground (arith, names-send_webhook env "call.offer" (some (call_offer creator id)))

names-handle_history_sync :
    (env : Env) (h : HistorySync)
    → names (handle_history_sync env h) ≡ announces env (event_name (history_sync h))
unfolding handle_history_sync announces event_name
names-handle_history_sync env (push_names pairs) =
    names_plain (handle_push_name_sync env pairs) (handle_push_name_sync-is_plain env pairs)
names-handle_history_sync env (conversations convs) =
    names_plain-send_webhook (sync_conversations env convs) env "history.sync"
      (some (history_sync (conversations convs))) (sync_conversations-is_plain env convs)

-- The webhook of an event with a table of its own, once its name is the table's.
by_name :
    (env : Env) (e : Event) (name : String) (raw : Option Event)
    → event_name e ≡ some name
    → names (send_webhook env name raw) ≡ announces env (event_name e)
unfolding announces
by_name env e name raw h = rw (h) (names-send_webhook env name raw)

-- Each event sends one webhook under its name in the table of the names, or none: that is so if the
-- event has no name, if there is no webhook service, and if the checker skips the name for the
-- session. A message has the name of its reaction, deletion, edit or arrival, and none if it brings
-- keys, another protocol message or nothing that can be read.
pub names-handle_event :
    (env : Env) (e : Event) → names (handle_event env e) ≡ announces env (event_name e)
unfolding handle_event announces event_name handle_lost handle_connection handle_chat handle_call
    handle_profile handle_undecryptable_message handle_message names name_in
names-handle_event env connected_event = names-handle_connected env
names-handle_event env logged_out = names-handle_logged_out env
names-handle_event env (lost e) = by_name env (lost e) (lost_name e) (lost_raw e) (lost_name_lem e)
names-handle_event env (connection e) =
    by_name env (connection e) (connection_name e) (some (connection e)) (connection_name_lem e)
names-handle_event env (received e) = names-handle_wa env e e.message
names-handle_event env (receipt r) = names-handle_receipt env r
names-handle_event env undecryptable =
    names-send_webhook env "message.undecryptable" (some undecryptable)
names-handle_event env media_retry = names-handle_media_retry env
names-handle_event env (chat e) =
    by_name env (chat e) (chat_name e) (some (chat e)) (chat_name_lem e)
names-handle_event env (history_sync h) = names-handle_history_sync env h
names-handle_event env (call_offer creator id) = names-handle_call_offer env creator id
names-handle_event env (call e) =
    by_name env (call e) (call_name e) (some (call e)) (call_name_lem e)
names-handle_event env (profile e) =
    by_name env (profile e) (profile_name e) (some (profile e)) (profile_name_lem e)
names-handle_event env (quiet e) = refl
