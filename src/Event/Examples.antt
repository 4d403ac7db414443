-- ===== src/Event/Examples.antt =====
-- The theorems on internal/service/event at a session, a message and a short history.
use onwapp.Base.{
  if◌then◌else◌, all, Str, lit, str_eq, one_of, ◌≡◌, refl, Bool, true, false, ◌&&◌, none, some,
  List, [], ◌∷◌, map,
}
use onwapp.Session.Registry.{disconnected, connected}
use onwapp.Store.Messages.{Message}
use onwapp.Store.Messages.View.{view}
use onwapp.Event.{WaMessage, absent, message, no_parts, MessageEvent, read_receipt, Receipt}
use onwapp.Event.Extract.{extract_message_type_and_content}
use onwapp.Event.Calls.{
  temporary_ban, Event, connected_event, lost, received, MessageKey, HistoryMessage, Conversation,
  Env,
}
use onwapp.Event.Calls.Inert.{Standing, names}
use onwapp.Event.Calls.Names.{all_events}
use onwapp.Event.Calls.Tables.{stored}
use onwapp.Event.Incoming.{new_message, handle_message, handle_receipt}
use onwapp.Event.Incoming.Saved.{is_new, is_content, IsArrival, view-handle_message, received_again}
use onwapp.Event.Incoming.Receipts.{receipted, view-handle_receipt}
use onwapp.Event.Service.{handle_event}
use onwapp.Event.Service.EventNames.{event_name}
use onwapp.Event.Service.Webhooks.{announces, names-handle_event}
use onwapp.Event.Service.Listed.{names-listed}
use onwapp.Event.History.{conversations_loop, nothing}
use onwapp.Event.History.Admitted.{all_wanted_ids, is_admissible, conversations_loop_lem}
use onwapp.Event.KeepOnline.{Tick, StaysOnline, start_keep_online, start_keep_online_ends}

abbrev sid : Str
sid = b's' ∷ []

abbrev mid : Str
mid = b'm' ∷ []

abbrev jid : Str
jid = b'j' ∷ []

abbrev env : Env
env = record {
  session_id = sid;
  session_name = b'n' ∷ [];
  has_client = true;
  has_store = true;
  store_id = some (jid, b'5' ∷ []);
  has_webhook_service = true;
  skips_webhook = none;
  has_media_service = true;
  has_history_service = true;
  settings = some (some (true, false));
  gets_privacy = some true;
  has_presence_sender = true;
  has_call_rejecter = true;
  saves_media_ok = λ m. true;
  saves_medias_ok = λ ms. some 1;
  contacts = none;
  lids = none;
}

abbrev hello : WaMessage
hello = message (record no_parts { conversation = b'h' ∷ b'i' ∷ [] }) absent absent absent

abbrev event : MessageEvent
event = record {
  id = mid;
  chat = jid;
  sender = jid;
  sender_alt = [];
  timestamp = 90;
  push_name = b'N' ∷ [];
  media_type = [];
  category = [];
  is_from_me = false;
  is_group = false;
  edit_target_id = [];
  is_edit = false;
  is_ephemeral = false;
  is_view_once = false;
  is_view_once_v2 = false;
  message = hello;
  raw = [];
}

abbrev like : Str → Str → Bool
like pattern s = false

abbrev old : Message
old = record (new_message env event) {
  cw_msg_id = some 4;
  cw_conv_id = some 5;
  cw_source_id = some (b'w' ∷ []);
}

event-is_new : is_new event ≡ true
unfolding is_new is_content extract_message_type_and_content
event-is_new = refl

view-handle_message_example :
    (row : Message) × IsArrival like 100 env event row
    × (view (stored like 100 sid (handle_message env event) []) sid mid ≡ (
        if str_eq sid sid && str_eq mid mid
        then some (elim (view [] sid mid) as (λ x. Message) [
          | none ↦ row
          | some old ↦ record old { cw_source_id = some [] }
        ])
        else view [] sid mid))
view-handle_message_example = view-handle_message like 100 env event [] sid mid event-is_new

old_found : view (old ∷ []) sid mid ≡ some old
unfolding view new_message
old_found = refl

received_again_example :
    view (stored like 100 sid (handle_message env event) (old ∷ [])) sid mid
    ≡ some (record old { cw_source_id = some [] })
received_again_example = received_again like 100 env event (old ∷ []) event-is_new old_found

abbrev seen : Receipt
seen = record {
  type_ = read_receipt;
  chat = jid;
  sender = jid;
  message_ids = mid ∷ [];
  timestamp = 95;
}

view-handle_receipt_example :
    view (stored like 100 sid (handle_receipt env seen) (old ∷ [])) sid mid
    ≡ elim (view (old ∷ []) sid mid) [
      | none ↦ none
      | some row ↦ if one_of mid (mid ∷ []) then some (receipted 100 read_receipt row) else some row
    ]
view-handle_receipt_example = view-handle_receipt like 100 env seen (old ∷ []) mid

abbrev idle : Standing
idle = record {
  memory = disconnected;
  qr = [];
  row_status = lit "disconnected";
  row_jid = [];
  row_phone = [];
}

abbrev ban : List Event
ban = connected_event ∷ received event ∷ lost temporary_ban ∷ []

names-handle_event_example :
    names (handle_event env (received event)) ≡ announces env (event_name (received event))
names-handle_event_example = names-handle_event env (received event)

names-listed_example :
    all (λ n. one_of n all_events) (names (handle_event env (lost temporary_ban))) ≡ true
names-listed_example = names-listed env (lost temporary_ban)

abbrev key : MessageKey
key = record { id = mid; remote_jid = jid; participant = []; from_me = false }

abbrev past : HistoryMessage
past = record {
  key = some key;
  order_id = 1;
  stub_type = 0;
  stub_params = [];
  message_secret = none;
  message = hello;
  participant = [];
  timestamp = 80;
  push_name = [];
  ephemeral_duration = 0;
  broadcast = false;
  reactions = [];
  raw = [];
}

abbrev history : List Conversation
history = record { id = jid; messages = some past ∷ none ∷ [] } ∷ []

conversations_loop_lem_example :
    (map (λ row. row.msg_id) (conversations_loop env history nothing).all_messages
      ≡ all_wanted_ids history)
    × (all (is_admissible env) (conversations_loop env history nothing).all_messages ≡ true)
conversations_loop_lem_example = conversations_loop_lem env history

abbrev awake : Tick
awake = record { status = connected; settings = none }

abbrev asleep : Tick
asleep = record { status = disconnected; settings = none }

asleep_stops : ¬ StaysOnline asleep
asleep_stops (h, k) = cc h

start_keep_online_ends_example : start_keep_online (awake ∷ asleep ∷ awake ∷ []) ≡ (2, false)
start_keep_online_ends_example =
    start_keep_online_ends (awake ∷ []) (awake ∷ []) asleep ((refl, tt), tt) asleep_stops
