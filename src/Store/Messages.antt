-- ===== src/Store/Messages.antt =====
-- internal/db/repository/message.go: the table "onWappMessage" as a list of rows, and the
-- statements on it. A NULL is `none`; the LIKE of PostgreSQL is an argument.
pub mod Reactions
pub mod View
pub mod Refinement
use onwapp.Base.{
  ◌==◌, if◌then◌else◌, length, keep, Str, is_empty, str_eq, one_of, ℕ, Bool, true, false, not, ◌&&◌,
  Option, none, some, List, [], ◌∷◌, ◌++◌, map,
}

-- `MessageStatus`
pub data MessageStatus : Type 0 where
  pending sent delivered read played failed : MessageStatus

-- `Reaction`
pub record Reaction : Type 0 where
  pub emoji : Str
  pub sender_jid : Str
  pub timestamp : ℕ

-- `Message`: a row; times are Unix times.
pub record Message : Type 0 where
  pub session_id : Str
  pub msg_id : Str
  pub chat_jid : Str
  pub sender_jid : Str
  pub timestamp : ℕ
  pub push_name : Str
  pub sender_alt : Str
  pub server_id : Option ℕ
  pub verified_name : Option Str
  pub type_ : Str
  pub media_type : Str
  pub category : Str
  pub content : Str
  pub from_me : Bool
  pub is_group : Bool
  pub ephemeral : Bool
  pub view_once : Bool
  pub is_edit : Bool
  pub edit_target_id : Str
  pub quoted_id : Str
  pub quoted_sender : Str
  pub cw_msg_id : Option ℕ
  pub cw_conv_id : Option ℕ
  pub cw_source_id : Option Str
  pub status : MessageStatus
  pub delivered_at : Option ℕ
  pub read_at : Option ℕ
  pub reactions : List Reaction
  pub raw_event : Str
  pub msg_order_id : Option ℕ
  pub stub_type : Option ℕ
  pub stub_params : List Str
  pub message_secret : Option Str
  pub broadcast : Bool
  pub created_at : ℕ

abbrev pub Table : Type 0
Table = List Message

-- `WHERE "sessionId" = $1 AND "msgId" = $2`
unfoldable pub has_key : Str → Str → Message → Bool
unfolding str_eq
has_key s m row = str_eq row.session_id s && str_eq row.msg_id m

-- `GetByMsgId`
unfoldable pub get_by_msg_id : Str → Str → Table → Option Message
unfolding has_key
get_by_msg_id s m [] = none
get_by_msg_id s m (row ∷ t) =
    let rest = get_by_msg_id s m t in if has_key s m row then some row else rest

-- `UPDATE ... SET ... WHERE ...`
unfoldable pub update_where : (Message → Bool) → (Message → Message) → Table → Table
update_where p f t = map (λ row. if p row then f row else row) t

-- `RowsAffected`
unfoldable pub rows_affected : (Message → Bool) → Table → ℕ
rows_affected p t = length (keep p t)

-- `COALESCE(new, old)`
unfoldable pub coalesce {ℓ} : {A : Type ℓ} → Option A → Option A → Option A
coalesce none old = old
coalesce (some a) old = some a

-- `INSERT ... ON CONFLICT ("sessionId", "msgId") DO UPDATE`
unfoldable pub upsert : (Message → Message) → Message → Table → Table
unfolding get_by_msg_id update_where has_key
upsert merge msg t = elim (get_by_msg_id msg.session_id msg.msg_id t) [
  | none ↦ t ++ (msg ∷ [])
  | some old ↦ update_where (has_key msg.session_id msg.msg_id) merge t
]

-- The columns that `Save` writes into a row that is there.
unfoldable pub merge_cw : Message → Message → Message
unfolding coalesce
merge_cw msg row = record row {
  cw_msg_id = coalesce msg.cw_msg_id row.cw_msg_id;
  cw_conv_id = coalesce msg.cw_conv_id row.cw_conv_id;
  cw_source_id = coalesce msg.cw_source_id row.cw_source_id;
}

-- The row that `Save` inserts: it leaves the columns of a history sync and the reactions at their
-- defaults.
unfoldable pub inserted : ℕ → Message → Message
inserted now msg = record msg {
  created_at = now;
  reactions = [];
  msg_order_id = none;
  stub_type = none;
  stub_params = [];
  message_secret = none;
  broadcast = false;
}

-- `Save`
unfoldable pub save : ℕ → Message → Table → Table
unfolding upsert inserted merge_cw
save now msg t = upsert (merge_cw msg) (inserted now msg) t

-- `sanitizeString`
unfoldable pub sanitize_string : Str → Str
sanitize_string s = keep (λ c. not (c == 0)) s

-- The columns that `SaveBatch` writes into a row that is there; the Go slice of the parameters is
-- NULL if it is empty.
unfoldable pub merge_history : Message → Message → Message
unfolding coalesce
merge_history msg row = record row {
  msg_order_id = coalesce msg.msg_order_id row.msg_order_id;
  stub_type = coalesce msg.stub_type row.stub_type;
  stub_params = elim msg.stub_params [ [] ↦ row.stub_params | p ∷ ps ↦ p ∷ ps ];
  message_secret = coalesce msg.message_secret row.message_secret;
}

-- The row that `SaveBatch` inserts.
unfoldable pub sanitized : ℕ → Message → Message
unfolding sanitize_string
sanitized now msg = record msg {
  created_at = now;
  content = sanitize_string msg.content;
  raw_event = sanitize_string msg.raw_event;
  push_name = sanitize_string msg.push_name;
  server_id = none;
  verified_name = none;
  cw_msg_id = none;
  cw_conv_id = none;
  cw_source_id = none;
}

-- `SaveBatch`
unfoldable pub save_batch : ℕ → List Message → Table → Table
unfolding upsert sanitized merge_history
save_batch now [] t = t
save_batch now (msg ∷ msgs) t =
    save_batch now msgs (upsert (merge_history msg) (sanitized now msg) t)

-- The columns of `UpdateStatus`.
unfoldable pub with_status : ℕ → MessageStatus → Message → Message
with_status now delivered row = record row { status = delivered; delivered_at = some now }
with_status now read row = record row { status = read; read_at = some now }
with_status now played row = record row { status = played; read_at = some now }
with_status now st row = record row { status = st }

-- `UpdateStatus`
unfoldable pub update_status : ℕ → Str → Str → MessageStatus → Table → Table
unfolding update_where has_key with_status
update_status now s m st t = update_where (has_key s m) (with_status now st) t

-- The reactions of other senders.
unfoldable pub of_others : Str → List Reaction → List Reaction
unfolding str_eq
of_others who rs = keep (λ r. not (str_eq r.sender_jid who)) rs

-- `AddReaction`
unfoldable pub add_reaction : Str → Str → Reaction → Table → Table
unfolding update_where has_key of_others
add_reaction s m r t =
    update_where (has_key s m)
      (λ row. record row { reactions = of_others r.sender_jid row.reactions ++ (r ∷ []) }) t

-- `RemoveReaction`
unfoldable pub remove_reaction : Str → Str → Str → Table → Table
unfolding update_where has_key of_others
remove_reaction s m who t =
    update_where (has_key s m) (λ row. record row { reactions = of_others who row.reactions }) t

-- The columns of `UpdateCwFields`.
unfoldable pub with_cw : ℕ → ℕ → Str → Message → Message
with_cw cw_msg cw_conv source row = record row {
  cw_msg_id = some cw_msg;
  cw_conv_id = some cw_conv;
  cw_source_id = some source;
}

-- `UpdateCwFields`: `none` is the error for a message that is not there.
unfoldable pub update_cw_fields : Str → Str → ℕ → ℕ → Str → Table → Option Table
unfolding rows_affected update_where has_key with_cw
update_cw_fields s m cw_msg cw_conv source t =
    if rows_affected (has_key s m) t == 0
    then none
    else some (update_where (has_key s m) (with_cw cw_msg cw_conv source) t)

-- The row of another key.
unfoldable pub delete_message : Str → Str → Table → Table
unfolding has_key
delete_message s m t = keep (λ row. not (has_key s m row)) t

-- A column that equals a number.
unfoldable pub holds : ℕ → Option ℕ → Bool
holds n none = false
holds n (some k) = k == n

-- `GetAllByCwMsgId`
unfoldable pub get_all_by_cw_msg_id : Str → ℕ → Table → Table
unfolding str_eq holds
get_all_by_cw_msg_id s n t = keep (λ row. str_eq row.session_id s && holds n row.cw_msg_id) t

-- The rows of a Chatwoot conversation.
unfoldable pub in_conversation : Str → ℕ → Message → Bool
unfolding str_eq holds
in_conversation s conv row = str_eq row.session_id s && holds conv row.cw_conv_id

unfoldable pub without_cw : Message → Message
without_cw row = record row { cw_conv_id = none; cw_msg_id = none; cw_source_id = none }

-- `ClearCwConversation`
unfoldable pub clear_cw_conversation : Str → ℕ → Table → Table × ℕ
unfolding update_where rows_affected in_conversation without_cw
clear_cw_conversation s conv t =
    (update_where (in_conversation s conv) without_cw t, rows_affected (in_conversation s conv) t)

-- The rows without a name whose sender passes a test.
unfoldable pub unnamed : (Str → Bool) → Str → Message → Bool
unfolding str_eq
unnamed from s row = str_eq row.session_id s && from row.sender_jid && is_empty row.push_name

-- `UpdatePushNameByJID` and `UpdatePushNameByLIDPattern`, whose tests of the sender are `=` and
-- `LIKE`.
unfoldable pub update_push_name : (Str → Bool) → Str → Str → Table → Table × ℕ
unfolding update_where rows_affected unnamed
update_push_name from s name t = (
  update_where (unnamed from s) (λ row. record row { push_name = name }) t,
  rows_affected (unnamed from s) t,
)

-- What is unread of an incoming message.
unfoldable pub is_unread : Message → Bool
is_unread row = not row.from_me && elim row.read_at [ none ↦ true | some at ↦ false ]

-- The unread messages with these IDs.
unfoldable pub unread_among : Str → List Str → Message → Bool
unfolding str_eq one_of is_unread
unread_among s ids row = str_eq row.session_id s && one_of row.msg_id ids && is_unread row

-- `MarkAsReadByAgent`
unfoldable pub mark_as_read_by_agent : ℕ → Str → List Str → Table → Table × ℕ
unfolding update_where rows_affected unread_among
mark_as_read_by_agent now s [] t = (t, 0)
mark_as_read_by_agent now s (m ∷ ids) t = (
  update_where (unread_among s (m ∷ ids)) (λ row. record row { read_at = some now }) t,
  rows_affected (unread_among s (m ∷ ids)) t,
)

-- `CountBySession`
unfoldable pub count_by_session : Str → Table → ℕ
unfolding str_eq rows_affected
count_by_session s t = rows_affected (λ row. str_eq row.session_id s) t
