-- ===== src/Event/Service/EventNames.antt =====
-- The names of the events of internal/service/event, from the constants of internal/model/event.go.
use Prim.Native.String.{String}
use onwapp.Base.{if◌then◌else◌, is_empty, lit, str_eq, ◌≡◌, refl, Bool, ◌&&◌, Option, none, some}
use onwapp.Event.{MessageEvent, WaMessage, absent, message}
use onwapp.Event.Extract.{extract_message_type_and_content}
use onwapp.Event.Calls.{
  LostEvent, ConnectionEvent, ChatEvent, CallEvent, ProfileEvent, disconnected_event,
  connect_failure, stream_replaced, temporary_ban, client_outdated, stream_error,
  keep_alive_timeout, keep_alive_restored, pair_success, pair_error, app_state,
  app_state_sync_complete, presence, chat_presence, mute, archive, pin, star, delete_for_me,
  delete_chat, clear_chat, mark_chat_as_read, label_edit, label_association_chat, offer_notice,
  accept, pre_accept, reject, terminate, transport, relay_latency, group_info, joined_group,
  push_name, picture, contact, business_name, Event, connected_event, logged_out, lost, connection,
  received, receipt, undecryptable, media_retry, chat, push_names, conversations, history_sync,
  call_offer, call, profile, quiet,
}
use onwapp.Event.Calls.Names.{chat_name, call_name, profile_name}
use onwapp.Event.Connection.{lost_name, connection_name}

-- A message that nothing can be read from.
unfoldable pub is_unknown : MessageEvent → Bool
unfolding extract_message_type_and_content str_eq lit
is_unknown e =
    let (msg_type, text) = extract_message_type_and_content e.message in
    str_eq msg_type (lit "unknown") && is_empty text

-- The name under which a message is announced.
unfoldable pub content_name : MessageEvent → Option String
unfolding is_unknown
content_name e =
    if e.is_edit
    then some "message.edited"
    else if is_unknown e
    then none
    else some "message.received"

unfoldable pub message_name : MessageEvent → WaMessage → Option String
unfolding content_name
message_name e absent = content_name e
message_name e (message p ed v w) = if p.sender_key_distribution then none else elim p.reaction [
  | some r ↦ some "message.reaction"
  | none ↦ elim p.protocol [
    | some proto ↦ if proto.is_revoke then some "message.deleted" else none
    | none ↦ content_name e
  ]
]

-- The name under which an event is announced, if it is: the constants of internal/model/event.go.
unfoldable pub event_name : Event → Option String
unfolding message_name
event_name connected_event = some "session.connected"
event_name logged_out = some "session.logged_out"
event_name (lost disconnected_event) = some "session.disconnected"
event_name (lost connect_failure) = some "session.connect_failure"
event_name (lost stream_replaced) = some "session.stream_replaced"
event_name (lost temporary_ban) = some "session.temporary_ban"
event_name (lost client_outdated) = some "session.client_outdated"
event_name (connection stream_error) = some "session.stream_error"
event_name (connection keep_alive_timeout) = some "session.keepalive_timeout"
event_name (connection keep_alive_restored) = some "session.keepalive_restored"
event_name (connection pair_success) = some "session.pair_success"
event_name (connection pair_error) = some "session.pair_error"
event_name (connection app_state) = some "sync.app_state"
event_name (connection app_state_sync_complete) = some "sync.app_state_complete"
event_name (received e) = message_name e e.message
event_name (receipt r) = some "message.receipt"
event_name undecryptable = some "message.undecryptable"
event_name media_retry = some "message.media_retry"
event_name (chat presence) = some "presence.update"
event_name (chat chat_presence) = some "chat.presence"
event_name (chat mute) = some "chat.mute"
event_name (chat archive) = some "chat.archive"
event_name (chat pin) = some "chat.pin"
event_name (chat star) = some "chat.star"
event_name (chat delete_for_me) = some "chat.delete_for_me"
event_name (chat delete_chat) = some "chat.delete"
event_name (chat clear_chat) = some "chat.clear"
event_name (chat mark_chat_as_read) = some "chat.mark_as_read"
event_name (chat label_edit) = some "chat.label_edit"
event_name (chat label_association_chat) = some "chat.label_association"
event_name (history_sync (push_names pairs)) = none
event_name (history_sync (conversations convs)) = some "history.sync"
event_name (call_offer creator id) = some "call.offer"
event_name (call offer_notice) = some "call.offer_notice"
event_name (call accept) = some "call.accept"
event_name (call pre_accept) = some "call.pre_accept"
event_name (call reject) = some "call.reject"
event_name (call terminate) = some "call.terminate"
event_name (call transport) = some "call.transport"
event_name (call relay_latency) = some "call.relay_latency"
event_name (profile group_info) = some "group.update"
event_name (profile joined_group) = some "group.joined"
event_name (profile push_name) = some "contact.push_name"
event_name (profile picture) = some "contact.picture"
event_name (profile contact) = some "contact.update"
event_name (profile business_name) = some "contact.business_name"
event_name (quiet e) = none

pub lost_name_lem : (e : LostEvent) → event_name (lost e) ≡ some (lost_name e)
unfolding event_name lost_name
lost_name_lem disconnected_event = refl
lost_name_lem connect_failure = refl
lost_name_lem stream_replaced = refl
lost_name_lem temporary_ban = refl
lost_name_lem client_outdated = refl

pub connection_name_lem :
    (e : ConnectionEvent) → event_name (connection e) ≡ some (connection_name e)
unfolding event_name connection_name
connection_name_lem stream_error = refl
connection_name_lem keep_alive_timeout = refl
connection_name_lem keep_alive_restored = refl
connection_name_lem pair_success = refl
connection_name_lem pair_error = refl
connection_name_lem app_state = refl
connection_name_lem app_state_sync_complete = refl

pub chat_name_lem : (e : ChatEvent) → event_name (chat e) ≡ some (chat_name e)
unfolding event_name chat_name
chat_name_lem presence = refl
chat_name_lem chat_presence = refl
chat_name_lem mute = refl
chat_name_lem archive = refl
chat_name_lem pin = refl
chat_name_lem star = refl
chat_name_lem delete_for_me = refl
chat_name_lem delete_chat = refl
chat_name_lem clear_chat = refl
chat_name_lem mark_chat_as_read = refl
chat_name_lem label_edit = refl
chat_name_lem label_association_chat = refl

pub call_name_lem : (e : CallEvent) → event_name (call e) ≡ some (call_name e)
unfolding event_name call_name
call_name_lem offer_notice = refl
call_name_lem accept = refl
call_name_lem pre_accept = refl
call_name_lem reject = refl
call_name_lem terminate = refl
call_name_lem transport = refl
call_name_lem relay_latency = refl

pub profile_name_lem : (e : ProfileEvent) → event_name (profile e) ≡ some (profile_name e)
unfolding event_name profile_name
profile_name_lem group_info = refl
profile_name_lem joined_group = refl
profile_name_lem push_name = refl
profile_name_lem picture = refl
profile_name_lem contact = refl
profile_name_lem business_name = refl
