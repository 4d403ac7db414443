-- ===== src/Event/Service.antt =====
-- HandleEvent of internal/service/event/service.go, with the handlers of chat.go and
-- notification.go.
pub mod EventNames
pub mod Webhooks
pub mod Listed
use onwapp.Base.{if◌then◌else◌, Str, Bool, false, ◌&&◌, none, some, List, [], ◌∷◌, ◌++◌}
use onwapp.Event.Calls.{
  ChatEvent, CallEvent, ProfileEvent, Event, connected_event, logged_out, lost, connection,
  received, receipt, undecryptable, media_retry, chat, history_sync, call_offer, call, profile,
  quiet, Call, rejects_call, Env, send_webhook,
}
use onwapp.Event.Calls.Names.{chat_name, call_name, profile_name}
use onwapp.Event.Incoming.{
  handle_message, handle_receipt, handle_undecryptable_message, handle_media_retry,
}
use onwapp.Event.Connection.{handle_connected, handle_lost, handle_logged_out, handle_connection}
use onwapp.Event.History.{handle_history_sync}

-- Whether a call offer is rejected: `settingsProvider` and `callRejecter` are there and the session
-- wants it.
unfoldable pub auto_rejects : Env → Bool
auto_rejects env = elim env.settings [
  | none ↦ false
  | some answer ↦
      env.has_call_rejecter
      && elim answer [ none ↦ false | some (always_online, auto_reject) ↦ auto_reject ]
]

-- `handleCallOffer`
unfoldable pub handle_call_offer : Env → Str → Str → List Call
unfolding auto_rejects send_webhook
handle_call_offer env creator id =
    (if auto_rejects env then rejects_call creator id ∷ [] else [])
    ++ send_webhook env "call.offer" (some (call_offer creator id))

-- The handlers of chat.go.
unfoldable pub handle_chat : Env → ChatEvent → List Call
unfolding chat_name send_webhook
handle_chat env e = send_webhook env (chat_name e) (some (chat e))

-- The other handlers of calls.
unfoldable pub handle_call : Env → CallEvent → List Call
unfolding call_name send_webhook
handle_call env e = send_webhook env (call_name e) (some (call e))

-- The handlers of groups and contacts.
unfoldable pub handle_profile : Env → ProfileEvent → List Call
unfolding profile_name send_webhook
handle_profile env e = send_webhook env (profile_name e) (some (profile e))

-- `HandleEvent`
unfoldable pub handle_event : Env → Event → List Call
unfolding handle_connected handle_logged_out handle_lost handle_connection handle_message
    handle_receipt handle_undecryptable_message handle_media_retry handle_chat handle_history_sync
    handle_call_offer handle_call handle_profile
handle_event env connected_event = handle_connected env
handle_event env logged_out = handle_logged_out env
handle_event env (lost e) = handle_lost env e
handle_event env (connection e) = handle_connection env e
handle_event env (received e) = handle_message env e
handle_event env (receipt r) = handle_receipt env r
handle_event env undecryptable = handle_undecryptable_message env
handle_event env media_retry = handle_media_retry env
handle_event env (chat e) = handle_chat env e
handle_event env (history_sync h) = handle_history_sync env h
handle_event env (call_offer creator id) = handle_call_offer env creator id
handle_event env (call e) = handle_call env e
handle_event env (profile e) = handle_profile env e
handle_event env (quiet e) = []
