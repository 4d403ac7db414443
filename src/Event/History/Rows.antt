-- ===== src/Event/History/Rows.antt =====
-- Which messages of a history synchronisation are kept, and as which rows: the inner loop of
-- handleHistorySync of internal/service/event/connection.go.
use onwapp.Base.{
  ◌==◌, if◌then◌else◌, Str, is_empty, lit, str_eq, has_suffix, ℕ, Bool, false, not, ◌&&◌, ◌||◌,
  Option, none, some, List, [], ◌∷◌,
}
use onwapp.Store.Messages.{Message, sent, delivered, Reaction}
use onwapp.Event.{WaMessage, absent, message}
use onwapp.Event.Extract.{
  extract_message_type_and_content, extract_quoted_id, extract_quoted_sender,
}
use onwapp.Event.Calls.{HistoryReaction, MessageKey, HistoryMessage, Env}

-- `webMsg.GetMessage().GetSenderKeyDistributionMessage() != nil`
unfoldable pub is_key_distribution : WaMessage → Bool
is_key_distribution absent = false
is_key_distribution (message p e v w) = p.sender_key_distribution

-- The secret of a message, else that of its context.
unfoldable pub secret_of : HistoryMessage → Option Str
secret_of h = elim h.message_secret [
  | some secret ↦ some secret
  | none ↦ elim h.message [
    | absent ↦ none
    | message p e v w ↦ elim p.context_secret [ none ↦ none | some secret ↦ secret ]
  ]
]

-- `stubType`: a pointer to a number that is not zero.
unfoldable pub stub_of : HistoryMessage → Option ℕ
stub_of h = if h.stub_type == 0 then none else some h.stub_type

-- The type of a message, "system" for a stub; none if the message is skipped.
unfoldable pub type_of : HistoryMessage → Option (Str × Str)
unfolding extract_message_type_and_content str_eq lit
type_of h =
    let (msg_type, text) = extract_message_type_and_content h.message in
    if not (h.stub_type == 0)
    then some (lit "system", text)
    else if str_eq msg_type (lit "unknown") && is_empty text
    then none
    else some (msg_type, text)

-- The JID of the sender.
unfoldable pub sender_of : MessageKey → HistoryMessage → Str
sender_of key h =
    if not (is_empty key.participant)
    then key.participant
    else if not (is_empty h.participant)
    then h.participant
    else key.remote_jid

-- The reactions that `buildReactionsJSON` encodes.
unfoldable pub build_reactions : List HistoryReaction → List Reaction
build_reactions [] = []
build_reactions (r ∷ rs) =
    let rest = build_reactions rs in
    elim r.key_jid [
      | none ↦ rest
      | some jid ↦
          record { emoji = r.text; sender_jid = jid; timestamp = r.sender_timestamp_ms } ∷ rest
    ]

-- The row of a message.
unfoldable pub history_row : Env → Str → MessageKey → HistoryMessage → Str × Str → Message
unfolding stub_of secret_of sender_of build_reactions extract_quoted_id extract_quoted_sender
    has_suffix str_eq lit
history_row env chat_jid key h typed = record {
  session_id = env.session_id;
  msg_id = key.id;
  chat_jid = chat_jid;
  sender_jid = sender_of key h;
  timestamp = h.timestamp;
  push_name = h.push_name;
  sender_alt = [];
  server_id = none;
  verified_name = none;
  type_ = typed.0;
  media_type = [];
  category = [];
  content = typed.1;
  from_me = key.from_me;
  is_group = has_suffix chat_jid (lit "@g.us");
  ephemeral = not (h.ephemeral_duration == 0);
  view_once = false;
  is_edit = false;
  edit_target_id = [];
  quoted_id = extract_quoted_id h.message;
  quoted_sender = extract_quoted_sender h.message;
  cw_msg_id = none;
  cw_conv_id = none;
  cw_source_id = none;
  status = if key.from_me then sent else delivered;
  delivered_at = none;
  read_at = none;
  reactions = build_reactions h.reactions;
  raw_event = h.raw;
  msg_order_id = if h.order_id == 0 then none else some h.order_id;
  stub_type = stub_of h;
  stub_params = if h.stub_type == 0 then [] else h.stub_params;
  message_secret = secret_of h;
  broadcast =
      str_eq key.remote_jid (lit "status@broadcast")
      || h.broadcast
      || is_key_distribution h.message;
  created_at = 0;
}

-- A message of a conversation: its row, or none where the loop continues.
unfoldable pub admit : Env → Str → Option HistoryMessage → Option (HistoryMessage × Message)
unfolding is_key_distribution type_of history_row
admit env chat_jid none = none
admit env chat_jid (some h) = elim h.key [
  | none ↦ none
  | some key ↦
      if is_empty key.id
      then none
      else if is_key_distribution h.message
      then none
      else elim (type_of h) [
        | none ↦ none
        | some typed ↦ some (h, history_row env chat_jid key h typed)
      ]
]
