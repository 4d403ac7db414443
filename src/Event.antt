-- ===== src/Event.antt =====
-- The events of internal/service/event: the messages of go.mau.fi/whatsmeow as far as the handlers
-- read them, and what the handlers do.
pub mod Extract
pub mod Calls
pub mod Incoming
pub mod Connection
pub mod Service
pub mod History
pub mod KeepOnline
mod Examples
use onwapp.Base.{Str, ℕ, Bool, false, Option, none, List, []}

-- `waE2E.ContextInfo`
pub record ContextInfo : Type 0 where
  pub stanza_id : Str
  pub participant : Str

-- A part of a message that has a text and a context.
pub record TextPart : Type 0 where
  pub text : Str
  pub context : Option ContextInfo

-- A part of a message that has a file; the fields that its kind lacks are empty.
pub record FilePart : Type 0 where
  pub caption : Str
  pub file_name : Str
  pub mimetype : Str
  pub file_length : ℕ
  pub direct_path : Str
  pub media_key : Str
  pub file_sha256 : Str
  pub file_enc_sha256 : Str
  pub media_key_timestamp : ℕ
  pub width : ℕ
  pub height : ℕ
  pub seconds : ℕ
  pub context : Option ContextInfo

-- `waE2E.ContactsArrayMessage`, with the display names of its contacts.
pub record ContactsPart : Type 0 where
  pub display_names : List Str
  pub context : Option ContextInfo

-- `waE2E.ReactionMessage`
pub record ReactionPart : Type 0 where
  pub key_id : Str
  pub text : Str
  pub sender_timestamp_ms : ℕ

-- `waE2E.ProtocolMessage`; its edited message is an argument of `message`.
pub record ProtocolPart : Type 0 where
  pub is_revoke : Bool
  pub key_id : Str

-- The parts of a `waE2E.Message` that do not hold a message. A button, list or other reply is its
-- text.
pub record Parts : Type 0 where
  pub sender_key_distribution : Bool
  pub conversation : Str
  pub extended_text : Option TextPart
  pub image : Option FilePart
  pub video : Option FilePart
  pub audio : Option FilePart
  pub document : Option FilePart
  pub sticker : Option FilePart
  pub location : Option (Str × Str)
  pub contact : Option TextPart
  pub contacts_array : Option ContactsPart
  pub reaction : Option ReactionPart
  pub poll_creation : Option Str
  pub protocol : Option ProtocolPart
  pub buttons : Option Str
  pub list : Option Str
  pub template : Bool
  pub template_button_reply : Option Str
  pub buttons_response : Option Str
  pub list_response : Option Str
  pub interactive : Option (Option Str)
  pub interactive_response : Bool
  pub product : Bool
  pub order : Bool
  pub live_location : Bool
  pub has_view_once : Bool
  pub has_view_once_v2 : Bool
  pub context_secret : Option (Option Str)

-- `*waE2E.Message`: nil, or the parts with the edited message of the protocol message and the
-- messages of the two kinds of view-once message.
pub data WaMessage : Type 0 where
  absent : WaMessage
  message : Parts → WaMessage → WaMessage → WaMessage → WaMessage

-- A message without parts.
abbrev pub no_parts : Parts
no_parts = record {
  sender_key_distribution = false;
  conversation = [];
  extended_text = none;
  image = none;
  video = none;
  audio = none;
  document = none;
  sticker = none;
  location = none;
  contact = none;
  contacts_array = none;
  reaction = none;
  poll_creation = none;
  protocol = none;
  buttons = none;
  list = none;
  template = false;
  template_button_reply = none;
  buttons_response = none;
  list_response = none;
  interactive = none;
  interactive_response = false;
  product = false;
  order = false;
  live_location = false;
  has_view_once = false;
  has_view_once_v2 = false;
  context_secret = none;
}

-- `events.Message` and its `types.MessageInfo`, with JIDs as their texts; `raw` is its JSON.
pub record MessageEvent : Type 0 where
  pub id : Str
  pub chat : Str
  pub sender : Str
  pub sender_alt : Str
  pub timestamp : ℕ
  pub push_name : Str
  pub media_type : Str
  pub category : Str
  pub is_from_me : Bool
  pub is_group : Bool
  pub edit_target_id : Str
  pub is_edit : Bool
  pub is_ephemeral : Bool
  pub is_view_once : Bool
  pub is_view_once_v2 : Bool
  pub message : WaMessage
  pub raw : Str

-- `types.ReceiptType`, the types that are not of the first three in one.
pub data ReceiptType : Type 0 where
  delivery read_receipt played_receipt other_receipt : ReceiptType

-- `events.Receipt`
pub record Receipt : Type 0 where
  pub type_ : ReceiptType
  pub chat : Str
  pub sender : Str
  pub message_ids : List Str
  pub timestamp : ℕ
