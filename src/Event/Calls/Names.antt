-- ===== src/Event/Calls/Names.antt =====
-- The names of the events of internal/service/event/chat.go and notification.go, and the event
-- names of internal/model/event.go.
use Prim.Native.String.{String}
use onwapp.Base.{Str, lit, List, [], ◌∷◌, map}
use onwapp.Event.Calls.{
  ChatEvent, presence, chat_presence, mute, archive, pin, star, delete_for_me, delete_chat,
  clear_chat, mark_chat_as_read, label_edit, label_association_chat, CallEvent, offer_notice,
  accept, pre_accept, reject, terminate, transport, relay_latency, ProfileEvent, group_info,
  joined_group, push_name, picture, contact, business_name,
}

unfoldable pub chat_name : ChatEvent → String
chat_name presence = "presence.update"
chat_name chat_presence = "chat.presence"
chat_name mute = "chat.mute"
chat_name archive = "chat.archive"
chat_name pin = "chat.pin"
chat_name star = "chat.star"
chat_name delete_for_me = "chat.delete_for_me"
chat_name delete_chat = "chat.delete"
chat_name clear_chat = "chat.clear"
chat_name mark_chat_as_read = "chat.mark_as_read"
chat_name label_edit = "chat.label_edit"
chat_name label_association_chat = "chat.label_association"

unfoldable pub call_name : CallEvent → String
call_name offer_notice = "call.offer_notice"
call_name accept = "call.accept"
call_name pre_accept = "call.pre_accept"
call_name reject = "call.reject"
call_name terminate = "call.terminate"
call_name transport = "call.transport"
call_name relay_latency = "call.relay_latency"

unfoldable pub profile_name : ProfileEvent → String
profile_name group_info = "group.update"
profile_name joined_group = "group.joined"
profile_name push_name = "contact.push_name"
profile_name picture = "contact.picture"
profile_name contact = "contact.update"
profile_name business_name = "contact.business_name"

-- `AllEvents`
unfoldable pub all_events : List Str
unfolding lit
all_events = map lit (
    "session.connected" ∷ "session.disconnected" ∷ "session.logged_out" ∷ "session.qr"
    ∷ "session.connect_failure" ∷ "session.stream_replaced" ∷ "session.stream_error"
    ∷ "session.temporary_ban" ∷ "session.client_outdated" ∷ "session.keepalive_timeout"
    ∷ "session.keepalive_restored" ∷ "session.pair_success" ∷ "session.pair_error"
    ∷ "message.received" ∷ "message.sent" ∷ "message.receipt" ∷ "message.reaction"
    ∷ "message.deleted" ∷ "message.edited" ∷ "message.undecryptable" ∷ "message.media_retry"
    ∷ "presence.update" ∷ "chat.presence" ∷ "history.sync" ∷ "sync.offline_preview"
    ∷ "sync.offline_completed" ∷ "sync.app_state" ∷ "sync.app_state_complete" ∷ "contact.push_name"
    ∷ "contact.picture" ∷ "contact.update" ∷ "contact.business_name" ∷ "contact.about"
    ∷ "call.offer" ∷ "call.offer_notice" ∷ "call.accept" ∷ "call.pre_accept" ∷ "call.reject"
    ∷ "call.terminate" ∷ "call.transport" ∷ "call.relay_latency" ∷ "group.update" ∷ "group.joined"
    ∷ "group.participants" ∷ "privacy.settings" ∷ "privacy.identity_change" ∷ "privacy.blocklist"
    ∷ "newsletter.join" ∷ "newsletter.leave" ∷ "newsletter.mute_change" ∷ "newsletter.live_update"
    ∷ "chat.archive" ∷ "chat.pin" ∷ "chat.mute" ∷ "chat.star" ∷ "chat.delete_for_me" ∷ "chat.delete"
    ∷ "chat.clear" ∷ "chat.mark_as_read" ∷ "chat.label_edit" ∷ "chat.label_association" ∷ [])
