-- ===== src/Event/Calls.antt =====
-- The events that HandleEvent of internal/service/event/service.go tells apart, and the calls that
-- its handlers make, in order. What runs in a goroutine of its own is one call that starts it.
pub mod Names
pub mod Inert
pub mod Tables
use Prim.Native.String.{String}
use onwapp.Base.{if◌then◌else◌, Str, lit, ℕ, Bool, not, Option, none, some, List, [], ◌∷◌}
use onwapp.Session.Registry.{SessionStatus}
use onwapp.Store.Messages.{Message, MessageStatus, Reaction}
use onwapp.Event.{WaMessage, MessageEvent, Receipt}
use onwapp.Event.Extract.{Media}

-- The events that end a connection, beside `LoggedOut`.
pub data LostEvent : Type 0 where
  disconnected_event connect_failure stream_replaced temporary_ban client_outdated : LostEvent

-- The events of connection.go that are passed on and no more.
pub data ConnectionEvent : Type 0 where
  stream_error keep_alive_timeout keep_alive_restored pair_success pair_error app_state
        app_state_sync_complete :
      ConnectionEvent

-- The events of chat.go.
pub data ChatEvent : Type 0 where
  presence chat_presence mute archive pin star delete_for_me delete_chat clear_chat
        mark_chat_as_read label_edit label_association_chat :
      ChatEvent

-- The events of calls beside `CallOffer`.
pub data CallEvent : Type 0 where
  offer_notice accept pre_accept reject terminate transport relay_latency : CallEvent

-- The events of groups and contacts.
pub data ProfileEvent : Type 0 where
  group_info joined_group push_name picture contact business_name : ProfileEvent

-- The events that are logged and no more, those that no case names among them.
pub data QuietEvent : Type 0 where
  newsletter_join newsletter_leave newsletter_mute_change newsletter_live_update identity_change
        privacy_settings blocklist offline_sync_preview offline_sync_completed unhandled :
      QuietEvent

-- `waWeb.Reaction`, with the remote JID of its key, which may be nil.
pub record HistoryReaction : Type 0 where
  pub key_jid : Option Str
  pub text : Str
  pub sender_timestamp_ms : ℕ

-- `waCommon.MessageKey`
pub record MessageKey : Type 0 where
  pub id : Str
  pub remote_jid : Str
  pub participant : Str
  pub from_me : Bool

-- `waWeb.WebMessageInfo` and its `HistorySyncMsg`; `raw` is their JSON.
pub record HistoryMessage : Type 0 where
  pub key : Option MessageKey
  pub order_id : ℕ
  pub stub_type : ℕ
  pub stub_params : List Str
  pub message_secret : Option Str
  pub message : WaMessage
  pub participant : Str
  pub timestamp : ℕ
  pub push_name : Str
  pub ephemeral_duration : ℕ
  pub broadcast : Bool
  pub reactions : List HistoryReaction
  pub raw : Str

-- `waHistorySync.Conversation`; a message may lack its `WebMessageInfo`.
pub record Conversation : Type 0 where
  pub id : Str
  pub messages : List (Option HistoryMessage)

-- `events.HistorySync`: the names if it is of type PUSH_NAME.
pub data HistorySync : Type 0 where
  push_names : List (Str × Str) → HistorySync
  conversations : List Conversation → HistorySync

pub data Event : Type 0 where
  connected_event : Event
  logged_out : Event
  lost : LostEvent → Event
  connection : ConnectionEvent → Event
  received : MessageEvent → Event
  receipt : Receipt → Event
  undecryptable : Event
  media_retry : Event
  chat : ChatEvent → Event
  history_sync : HistorySync → Event
  call_offer : Str → Str → Event
  call : CallEvent → Event
  profile : ProfileEvent → Event
  quiet : QuietEvent → Event

-- `UpdateType`
pub data UpdateType : Type 0 where
  reaction_update delete_update edit_update delivered_update read_update played_update : UpdateType

-- The JSON of a `MessageUpdate`.
pub data UpdateData : Type 0 where
  reacted : Str → Str → ℕ → UpdateData
  reacted_in_history : Str → ℕ → UpdateData
  deleted : Str → Bool → UpdateData
  edited : Str → Str → Str → UpdateData
  received_by : Str → ℕ → UpdateData

-- `MessageUpdate`
pub record MessageUpdate : Type 0 where
  pub msg_id : Str
  pub type_ : UpdateType
  pub actor : Str
  pub details : UpdateData
  pub event_at : ℕ

-- What a handler does. The session is that of the event.
pub data Call : Type 0 where
  sets_status : SessionStatus → Call
  sets_qr : Str → Call
  updates_jid : Str → Str → Call
  updates_session_status : Str → Call
  ensures_settings : Call
  starts_privacy_sync : Call
  syncs_privacy : Call
  starts_keep_online : Call
  disconnects_client : Call
  deletes_device : Call
  saves_message : Message → Call
  saves_messages : List Message → Call
  updates_conversation_timestamp : Str → ℕ → Call
  increments_unread : Str → Call
  saves_media : Media → Call
  saves_medias : List Media → Call
  starts_download : Media → Call
  processes_history_media : ℕ → Call
  starts_history_processing : Call
  saves_update : MessageUpdate → Call
  adds_reaction : Str → Reaction → Call
  removes_reaction : Str → Str → Call
  updates_message_status : Str → MessageStatus → Call
  handles_media_retry : Call
  rejects_call : Str → Str → Call
  names_jid : Str → Str → Call
  names_lid : Str → Str → Call
  sends_webhook : Str → Option Event → Call

-- The session and the services of `Service`, and what they answer. A service that is nil answers
-- `none`; an error is `none` or false.
pub record Env : Type 0 where
  pub session_id : Str
  pub session_name : Str
  -- session.Client and its Store.ID, with JID.String and JID.User
  pub has_client : Bool
  pub has_store : Bool
  pub store_id : Option (Str × Str)
  pub has_webhook_service : Bool
  pub skips_webhook : Option (Str → Str → Bool)
  pub has_media_service : Bool
  pub has_history_service : Bool
  -- alwaysOnline and autoRejectCalls of the settings service
  pub settings : Option (Option (Bool × Bool))
  pub gets_privacy : Option Bool
  pub has_presence_sender : Bool
  pub has_call_rejecter : Bool
  pub saves_media_ok : Media → Bool
  pub saves_medias_ok : List Media → Option ℕ
  -- the push, full and first names of whatsmeow's contacts, by the JIDs that parse
  pub contacts : Option (Str → Option (Str × Str × Str))
  -- the LIDs of whatsmeow's store for the phone JIDs that parse: `none` if a LID is empty
  pub lids : Option (List Str → List (Str × Option Str))

-- `sendWebhook`
unfoldable pub send_webhook : Env → String → Option Event → List Call
unfolding lit
send_webhook env name raw = if not env.has_webhook_service then [] else elim env.skips_webhook [
  | none ↦ sends_webhook (lit name) raw ∷ []
  | some skips ↦ if skips env.session_id (lit name) then [] else sends_webhook (lit name) raw ∷ []
]
