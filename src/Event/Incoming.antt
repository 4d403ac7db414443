-- ===== src/Event/Incoming.antt =====
-- The message handlers of internal/service/event/message.go.
pub mod Inert
pub mod Saved
pub mod Receipts
use onwapp.Base.{
  if◌then◌else◌, Str, is_empty, lit, str_eq, ◌*◌, false, ◌&&◌, ◌||◌, Option, none, some, List, [],
  ◌∷◌, ◌++◌,
}
use onwapp.Store.Messages.{Message, MessageStatus, sent, delivered, read, played, Reaction}
use onwapp.Event.{
  ReactionPart, ProtocolPart, Parts, WaMessage, absent, message, MessageEvent, ReceiptType,
  delivery, read_receipt, played_receipt, other_receipt, Receipt,
}
use onwapp.Event.Extract.{
  Media, extract_message_type_and_content, extract_media_info, extract_quoted_id,
  extract_quoted_sender,
}
use onwapp.Event.Calls.{
  Event, received, receipt, undecryptable, media_retry, UpdateType, reaction_update, delete_update,
  edit_update, delivered_update, read_update, played_update, reacted, deleted, edited, received_by,
  MessageUpdate, Call, saves_message, updates_conversation_timestamp, increments_unread,
  saves_media, starts_download, saves_update, adds_reaction, removes_reaction,
  updates_message_status, handles_media_retry, Env, send_webhook,
}

-- The row of `handleMessage`. Its ID and times of the database are the statement's.
unfoldable pub new_message : Env → MessageEvent → Message
unfolding extract_message_type_and_content extract_quoted_id extract_quoted_sender
new_message env e =
    let (msg_type, text) = extract_message_type_and_content e.message in
    record {
      session_id = env.session_id;
      msg_id = e.id;
      chat_jid = e.chat;
      sender_jid = e.sender;
      timestamp = e.timestamp;
      push_name = e.push_name;
      sender_alt = e.sender_alt;
      server_id = none;
      verified_name = none;
      type_ = msg_type;
      media_type = e.media_type;
      category = e.category;
      content = text;
      from_me = e.is_from_me;
      is_group = e.is_group;
      ephemeral = e.is_ephemeral;
      view_once = e.is_view_once || e.is_view_once_v2;
      is_edit = false;
      edit_target_id = [];
      quoted_id = extract_quoted_id e.message;
      quoted_sender = extract_quoted_sender e.message;
      cw_msg_id = none;
      cw_conv_id = none;
      cw_source_id = some [];
      status = if e.is_from_me then sent else delivered;
      delivered_at = if e.is_from_me then none else some e.timestamp;
      read_at = none;
      reactions = [];
      raw_event = e.raw;
      msg_order_id = none;
      stub_type = none;
      stub_params = [];
      message_secret = none;
      broadcast = false;
      created_at = 0;
    }

-- The media of a message: it is downloaded if it could be saved.
unfoldable pub keep_media : Env → MessageEvent → List Call
unfolding extract_media_info
keep_media env e = elim (extract_media_info env.session_id e.id e.message) [
  | none ↦ []
  | some media ↦
      saves_media media
      ∷ (if env.saves_media_ok media && env.has_media_service && env.has_client
          then starts_download media ∷ []
          else [])
]

-- `handleMessage` of a message that is neither a reaction nor a protocol message nor an edit.
unfoldable pub handle_new_message : Env → MessageEvent → List Call
unfolding new_message keep_media extract_message_type_and_content send_webhook str_eq lit
handle_new_message env e =
    let (msg_type, text) = extract_message_type_and_content e.message in
    if str_eq msg_type (lit "unknown") && is_empty text
    then []
    else saves_message (new_message env e)
      ∷ updates_conversation_timestamp e.chat e.timestamp
      ∷ ((if e.is_from_me then [] else increments_unread e.chat ∷ [])
          ++ keep_media env e
          ++ send_webhook env "message.received" (some (received e)))

-- `handleReaction`
unfoldable pub handle_reaction : Env → MessageEvent → ReactionPart → List Call
unfolding send_webhook lit
handle_reaction env e r =
    saves_update (record {
      msg_id = r.key_id;
      type_ = reaction_update;
      actor = e.sender;
      details =
          reacted (if is_empty r.text then lit "remove" else lit "add") r.text
            r.sender_timestamp_ms;
      event_at = e.timestamp;
    })
    ∷ (if is_empty r.text
        then removes_reaction r.key_id e.sender
        else adds_reaction r.key_id
            (record { emoji = r.text; sender_jid = e.sender; timestamp = e.timestamp }))
    ∷ send_webhook env "message.reaction" (some (received e))

-- `handleProtocolMessage`
unfoldable pub handle_protocol_message : Env → MessageEvent → ProtocolPart → List Call
unfolding send_webhook
handle_protocol_message env e proto =
    if proto.is_revoke
    then saves_update (record {
      msg_id = proto.key_id;
      type_ = delete_update;
      actor = e.sender;
      details = deleted e.sender e.is_from_me;
      event_at = e.timestamp;
    })
      ∷ send_webhook env "message.deleted" (some (received e))
    else []

-- `handleMessageEdit`
unfoldable pub handle_message_edit : Env → MessageEvent → List Call
unfolding extract_message_type_and_content send_webhook
handle_message_edit env e =
    let (msg_type, new_content) = extract_message_type_and_content e.message in
    saves_update (record {
      msg_id = if is_empty e.edit_target_id then e.id else e.edit_target_id;
      type_ = edit_update;
      actor = e.sender;
      details = edited msg_type new_content e.id;
      event_at = e.timestamp;
    })
    ∷ send_webhook env "message.edited" (some (received e))

-- `handleMessage`; a nil message has no parts.
unfoldable pub handle_parts : Env → MessageEvent → Parts → List Call
unfolding handle_reaction handle_protocol_message handle_message_edit handle_new_message
handle_parts env e p = if p.sender_key_distribution then [] else elim p.reaction [
  | some r ↦ handle_reaction env e r
  | none ↦ elim p.protocol [
    | some proto ↦ handle_protocol_message env e proto
    | none ↦ if e.is_edit then handle_message_edit env e else handle_new_message env e
  ]
]

unfoldable pub handle_wa : Env → MessageEvent → WaMessage → List Call
unfolding handle_parts
handle_wa env e absent = if e.is_edit then handle_message_edit env e else handle_new_message env e
handle_wa env e (message p ed v w) = handle_parts env e p

unfoldable pub handle_message : Env → MessageEvent → List Call
unfolding handle_wa
handle_message env e = handle_wa env e e.message

-- The status and the kind of update of a receipt type, if it has any.
unfoldable pub receipt_status : ReceiptType → Option (MessageStatus × UpdateType)
receipt_status delivery = some (delivered, delivered_update)
receipt_status read_receipt = some (read, read_update)
receipt_status played_receipt = some (played, played_update)
receipt_status other_receipt = none

-- The loop of `handleReceipt`; `UnixMilli` is a thousand times the Unix time.
unfoldable pub receipt_loop : Receipt → MessageStatus → UpdateType → List Str → List Call
receipt_loop r st kind [] = []
receipt_loop r st kind (m ∷ ids) =
    updates_message_status m st
    ∷ saves_update (record {
      msg_id = m;
      type_ = kind;
      actor = r.sender;
      details = received_by r.chat (r.timestamp * 1000);
      event_at = r.timestamp;
    })
    ∷ receipt_loop r st kind ids

-- `handleReceipt`
unfoldable pub handle_receipt : Env → Receipt → List Call
unfolding receipt_status receipt_loop send_webhook
handle_receipt env r =
    elim (receipt_status r.type_) [
      | none ↦ []
      | some (st, kind) ↦ receipt_loop r st kind r.message_ids
    ]
    ++ send_webhook env "message.receipt" (some (receipt r))

-- `handleUndecryptableMessage`
unfoldable pub handle_undecryptable_message : Env → List Call
unfolding send_webhook
handle_undecryptable_message env = send_webhook env "message.undecryptable" (some undecryptable)

-- `handleMediaRetry`
unfoldable pub handle_media_retry : Env → List Call
unfolding send_webhook
handle_media_retry env =
    (if env.has_media_service && env.has_client then handles_media_retry ∷ [] else [])
    ++ send_webhook env "message.media_retry" (some media_retry)
