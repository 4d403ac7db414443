-- ===== src/Chatwoot/Examples.antt =====
-- The theorems on messages of Chatwoot at a payload and at a message that Chatwoot has.
use onwapp.Base.{
  Str, lit, pos, ℕ, ◌≡◌, refl, ◌↔◌, ◌⊎◌, inl, true, false, none, some, [], ◌∷◌, arith,
}
use onwapp.Store.Messages.{Message, sent, get_by_msg_id}
use onwapp.Chatwoot.Messages.{
  ChatConfig, ChatwootApi, linked, process_message_delete, process_receipt,
}
use onwapp.Chatwoot.Messages.Deleted.{Leaves, process_message_delete-Leaves}
use onwapp.Chatwoot.Messages.Read.{unlinked, unlinked-process_receipt}
use onwapp.Chatwoot.Outgoing.{WebhookPayload, Config, ignored, get_webhook_data_for_sending}
use onwapp.Chatwoot.Outgoing.Echoes.{IsForContact, IsEcho, get_webhook_data_for_sending_iff}

-- A message that stands in its conversation with the source ID of a mirrored one.
abbrev echo : WebhookPayload ℕ
echo = record {
  id = pos 7;
  content = lit "oi";
  message_type = lit "outgoing";
  is_private = false;
  source_id = [];
  conversation = some (record {
    messages = record { id = pos 7; source_id = lit "WAID:1" } ∷ [];
    meta_sender = some (record { identifier = []; phone_number = lit "+5511" });
  });
  sender = none;
  attachments = [];
}

abbrev config : Config
config = record { sign_agent = true; sign_separator = [] }

get_webhook_data_for_sending_iff_example :
    (get_webhook_data_for_sending (some config) echo ≡ ignored)
    ↔ ((¬ IsForContact echo) ⊎ (IsForContact echo × IsEcho echo))
get_webhook_data_for_sending_iff_example = (get_webhook_data_for_sending_iff config echo).0

abbrev sid : Str
sid = b's' ∷ []

abbrev mid : Str
mid = b'm' ∷ []

-- A message that Chatwoot has as number 4 in conversation 5.
abbrev mirrored : Message
mirrored = record {
  session_id = sid;
  msg_id = mid;
  chat_jid = b'c' ∷ [];
  sender_jid = b'c' ∷ [];
  timestamp = 10;
  push_name = [];
  sender_alt = [];
  server_id = none;
  verified_name = none;
  type_ = [];
  media_type = [];
  category = [];
  content = [];
  from_me = false;
  is_group = false;
  ephemeral = false;
  view_once = false;
  is_edit = false;
  edit_target_id = [];
  quoted_id = [];
  quoted_sender = [];
  cw_msg_id = some 4;
  cw_conv_id = some 5;
  cw_source_id = some [];
  status = sent;
  delivered_at = none;
  read_at = none;
  reactions = [];
  raw_event = [];
  msg_order_id = none;
  stub_type = none;
  stub_params = [];
  message_secret = none;
  broadcast = false;
  created_at = 10;
}

abbrev chat_config : ChatConfig
chat_config = record { inbox_id = 1; ignore_chats = [] }

-- A Chatwoot that has lost the conversation.
abbrev lost_api : ChatwootApi
lost_api = record {
  delete_message_error = λ conv id. some (lit "status 404");
  get_inbox = λ n. some (b'i' ∷ []);
  get_conversation = λ n. inl (lit "status 404");
  update_last_seen_error = λ i s n. none;
}

linked-mirrored : linked (get_by_msg_id sid mid (mirrored ∷ [])) ≡ some (5, 4)
unfolding linked get_by_msg_id
linked-mirrored = refl

process_message_delete-Leaves_example :
    Leaves sid mid 5
      (mirrored ∷ [])
      (some (lit "status 404"))
      (process_message_delete (some chat_config) lost_api sid mid (mirrored ∷ []))
process_message_delete-Leaves_example =
    process_message_delete-Leaves chat_config lost_api sid mid (mirrored ∷ []) linked-mirrored
      (ground arith)

unlinked-process_receipt_example :
    unlinked (process_receipt (some chat_config) lost_api sid (mid ∷ []) (mirrored ∷ []))
    ≡ unlinked (mirrored ∷ [])
unlinked-process_receipt_example =
    unlinked-process_receipt (some chat_config) lost_api sid (mid ∷ []) (mirrored ∷ [])
