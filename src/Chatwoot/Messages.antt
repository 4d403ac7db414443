-- ===== src/Chatwoot/Messages.antt =====
-- What internal/integrations/chatwoot/service does with the messages that Chatwoot has: deletions
-- and read receipts of messages.go, and the cleanup and the ignored chats of service.go. The
-- client of Chatwoot is what it answers.
pub mod Deleted
pub mod Read
use onwapp.Base.{
  leb, ◌==◌, if◌then◌else◌, any, Str, is_empty, lit, str_eq, contains, delete, ℕ, ◌⊎◌, inl, inr,
  Bool, true, false, not, ◌&&◌, ◌||◌, Option, none, some, List, [], ◌∷◌, ◌++◌,
}
use onwapp.Phone.{is_group_jid, is_status_broadcast, is_newsletter}
use onwapp.Store.Messages.{Message, Table, get_by_msg_id, delete_message, clear_cw_conversation}

-- `core.Config`, as far as it is read here.
pub record ChatConfig : Type 0 where
  pub inbox_id : ℕ
  pub ignore_chats : List Str

-- The client's answers; an error is its text. The inbox is its identifier, the conversation the
-- source ID of its contact.
pub record ChatwootApi : Type 0 where
  pub delete_message_error : ℕ → ℕ → Option Str
  pub get_inbox : ℕ → Option Str
  pub get_conversation : ℕ → Str ⊎ Str
  pub update_last_seen_error : Str → Str → ℕ → Option Str

-- `IsNotFoundError`
unfoldable pub is_not_found_error : Str → Bool
unfolding contains lit
is_not_found_error text =
    contains text (lit "status 404") || contains text (lit "Resource could not be found")

-- `HandleConversationNotFound`, with a database; the numbers that Chatwoot gives to conversations
-- are not negative.
unfoldable pub handle_conversation_not_found : Str → ℕ → Table → Table
unfolding clear_cw_conversation
handle_conversation_not_found s conv t =
    if leb conv 0 then t else (clear_cw_conversation s conv t).0

-- One entry of the ignored chats.
unfoldable pub ignores : Str → Str → Bool
unfolding is_group_jid is_status_broadcast str_eq lit
ignores jid entry =
    (str_eq entry (lit "@g.us") && is_group_jid jid)
    || (str_eq entry (lit "@s.whatsapp.net")
        && not (is_group_jid jid)
        && not (is_status_broadcast jid))
    || str_eq jid entry

-- `ShouldIgnoreJid`
unfoldable pub should_ignore_jid : ChatConfig → Str → Bool
unfolding is_status_broadcast is_newsletter ignores
should_ignore_jid cfg jid =
    is_status_broadcast jid || is_newsletter jid || any (ignores jid) cfg.ignore_chats

-- The Chatwoot message of a message: the numbers of its conversation and of itself.
unfoldable pub linked : Option Message → Option (ℕ × ℕ)
linked none = none
linked (some msg) = elim msg.cw_msg_id [
  | none ↦ none
  | some id ↦ elim msg.cw_conv_id [ none ↦ none | some conv ↦ some (conv, id) ]
]

-- The end of `ProcessMessageDelete`, with the answer of Chatwoot: the table and the error.
unfoldable pub note_delete : Str → Str → ℕ → Option Str → Table → Table × Option Str
unfolding is_not_found_error handle_conversation_not_found delete_message lit
note_delete s m conv none t = (delete_message s m t, none)
note_delete s m conv (some text) t =
    if is_not_found_error text
    then (delete_message s m (handle_conversation_not_found s conv t), none)
    else (t, some (lit "failed to delete message from Chatwoot: " ++ text))

-- `ProcessMessageDelete`; without a configuration that is enabled it does nothing.
unfoldable pub delete_linked : ChatwootApi → Str → Str → Option (ℕ × ℕ) → Table → Table × Option Str
unfolding note_delete
delete_linked api s m none t = (t, none)
delete_linked api s m (some (conv, id)) t =
    note_delete s m conv (api.delete_message_error conv id) t

unfoldable pub process_message_delete :
    Option ChatConfig → ChatwootApi → Str → Str → Table → Table × Option Str
unfolding delete_linked linked get_by_msg_id
process_message_delete none api s m t = (t, none)
process_message_delete (some cfg) api s m t = delete_linked api s m (linked (get_by_msg_id s m t)) t

-- The conversation of a message, if it has one.
unfoldable pub conversation_of : Option Message → Option ℕ
conversation_of none = none
conversation_of (some msg) = elim msg.cw_conv_id [
  | none ↦ none
  | some conv ↦ if conv == 0 then none else some conv
]

-- What `HandleMessageRead` does: the table, whether the last-seen time was updated, and the error.
pub record ReadResult : Type 0 where
  pub table : Table
  pub updated : Bool
  pub error : Option Str

unfoldable pub unread : Table → ReadResult
unread t = record { table = t; updated = false; error = none }

-- The end of `HandleMessageRead`, with the source ID of the contact.
unfoldable pub update_last_seen : ChatwootApi → Str → Str → Str → ℕ → Table → ReadResult
unfolding is_not_found_error handle_conversation_not_found unread
update_last_seen api s inbox source conv t =
    if is_empty source then unread t else elim (api.update_last_seen_error inbox source conv) [
      | none ↦ record { table = t; updated = true; error = none }
      | some text ↦
          if is_not_found_error text
          then unread (handle_conversation_not_found s conv t)
          else record { table = t; updated = false; error = some text }
    ]

-- The rest of `HandleMessageRead`, with the conversation.
unfoldable pub read_in_conversation : ChatConfig → ChatwootApi → Str → ℕ → Table → ReadResult
unfolding is_not_found_error handle_conversation_not_found unread update_last_seen
read_in_conversation cfg api s conv t =
    if cfg.inbox_id == 0 then unread t else elim (api.get_inbox cfg.inbox_id) [
      | none ↦ unread t
      | some inbox ↦ if is_empty inbox then unread t else elim (api.get_conversation conv) [
        | inl text ↦
            unread (if is_not_found_error text then handle_conversation_not_found s conv t else t)
        | inr source ↦ update_last_seen api s inbox source conv t
      ]
    ]

-- `HandleMessageRead`
unfoldable pub handle_message_read :
    Option ChatConfig → ChatwootApi → Str → Str → Table → ReadResult
unfolding read_in_conversation conversation_of get_by_msg_id unread
handle_message_read none api s m t = unread t
handle_message_read (some cfg) api s m t = elim (conversation_of (get_by_msg_id s m t)) [
  | none ↦ unread t
  | some conv ↦ read_in_conversation cfg api s conv t
]

-- `ProcessReceipt` of a read receipt: errors are logged.
unfoldable pub process_receipt : Option ChatConfig → ChatwootApi → Str → List Str → Table → Table
unfolding handle_message_read
process_receipt cfg api s [] t = t
process_receipt cfg api s (m ∷ ids) t =
    process_receipt cfg api s ids (handle_message_read cfg api s m t).table
