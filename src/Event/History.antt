-- ===== src/Event/History.antt =====
-- The history synchronisation of internal/service/event/connection.go.
pub mod Rows
pub mod PushNames
pub mod Inert
pub mod Admitted
use onwapp.Base.{
  ◌==◌, if◌then◌else◌, Str, is_empty, ◌/◌, not, ◌&&◌, Option, none, some, List, [], ◌∷◌, ◌++◌, map,
}
use onwapp.Store.Messages.{Message, sent, delivered, Reaction}
use onwapp.Event.{Parts, WaMessage, absent, message}
use onwapp.Event.Extract.{
  Media, extract_message_type_and_content, extract_media_info, extract_quoted_id,
  extract_quoted_sender,
}
use onwapp.Event.Calls.{
  HistoryReaction, MessageKey, HistoryMessage, Conversation, HistorySync, push_names, conversations,
  history_sync, reaction_update, reacted_in_history, MessageUpdate, Call, saves_messages,
  saves_medias, processes_history_media, starts_history_processing, saves_update, names_jid,
  names_lid, Env, send_webhook,
}
use onwapp.Event.History.Rows.{admit, history_row}
use onwapp.Event.History.PushNames.{handle_push_name_sync}

-- `saveHistoryReactions`
unfoldable pub save_history_reactions : Str → List HistoryReaction → List Call
save_history_reactions m [] = []
save_history_reactions m (r ∷ rs) =
    let rest = save_history_reactions m rs in
    elim r.key_jid [
      | none ↦ rest
      | some jid ↦
          if is_empty r.text
          then rest
          else saves_update (record {
            msg_id = m;
            type_ = reaction_update;
            actor = jid;
            details = reacted_in_history r.text r.sender_timestamp_ms;
            event_at = r.sender_timestamp_ms / 1000;
          })
            ∷ rest
    ]

-- What the loops over the conversations collect.
pub record Collected : Type 0 where
  pub all_messages : List Message
  pub all_medias : List Media
  pub updates : List Call

unfoldable pub collect : Env → Str → Option HistoryMessage → Collected → Collected
unfolding admit save_history_reactions extract_media_info
collect env chat_jid h c = elim (admit env chat_jid h) [
  | none ↦ c
  | some (msg, row) ↦ record {
    all_messages = c.all_messages ++ (row ∷ []);
    all_medias = elim (extract_media_info env.session_id row.msg_id msg.message) [
      | none ↦ c.all_medias
      | some media ↦ c.all_medias ++ (media ∷ [])
    ];
    updates = c.updates ++ save_history_reactions row.msg_id msg.reactions;
  }
]

-- The inner loop.
unfoldable pub messages_loop : Env → Str → List (Option HistoryMessage) → Collected → Collected
unfolding collect
messages_loop env chat_jid [] c = c
messages_loop env chat_jid (h ∷ hs) c = messages_loop env chat_jid hs (collect env chat_jid h c)

-- The outer loop.
unfoldable pub conversations_loop : Env → List Conversation → Collected → Collected
unfolding messages_loop
conversations_loop env [] c = c
conversations_loop env (conv ∷ convs) c =
    conversations_loop env convs (messages_loop env conv.id conv.messages c)

-- The name of a contact: its push name, else its full name, else its first name.
unfoldable pub contact_name : Str × Str × Str → Str
contact_name (push, full, first) =
    if not (is_empty push) then push else if not (is_empty full) then full else first

-- A message without a name takes that of its sender's contact. The lookup stands for the map of
-- whatsmeow and types.ParseJID.
unfoldable pub enrich : (Str → Option (Str × Str × Str)) → Message → Message
unfolding contact_name
enrich lookup_contact msg =
    if is_empty msg.push_name && not (is_empty msg.sender_jid)
    then elim (lookup_contact msg.sender_jid) [
      | none ↦ msg
      | some c ↦
          if is_empty (contact_name c) then msg else record msg { push_name = contact_name c }
    ]
    else msg

unfoldable pub enrich_all : Env → List Message → List Message
unfolding enrich
enrich_all env msgs = elim env.contacts [ none ↦ msgs | some look ↦ map (enrich look) msgs ]

-- `len(allMessages) > 0`
unfoldable pub keep_messages : Env → List Message → List Call
unfolding enrich_all
keep_messages env [] = []
keep_messages env (m ∷ ms) = saves_messages (enrich_all env (m ∷ ms)) ∷ []

-- `len(allMedias) > 0`
unfoldable pub keep_medias : Env → List Media → List Call
keep_medias env [] = []
keep_medias env (m ∷ ms) = saves_medias (m ∷ ms) ∷ elim (env.saves_medias_ok (m ∷ ms)) [
  | none ↦ []
  | some count ↦
      if env.has_media_service && env.has_client && not (count == 0)
      then processes_history_media count ∷ []
      else []
]

-- Nothing collected yet.
abbrev pub nothing : Collected
nothing = record { all_messages = []; all_medias = []; updates = [] }

-- `handleHistorySync` of conversations, up to the webhook.
unfoldable pub sync_conversations : Env → List Conversation → List Call
unfolding conversations_loop keep_messages keep_medias
sync_conversations env convs =
    let c = conversations_loop env convs nothing in
    c.updates
    ++ keep_messages env c.all_messages
    ++ keep_medias env c.all_medias
    ++ (if env.has_history_service then starts_history_processing ∷ [] else [])

-- `handleHistorySync`, without the dump for debugging.
unfoldable pub handle_history_sync : Env → HistorySync → List Call
unfolding handle_push_name_sync sync_conversations send_webhook
handle_history_sync env (push_names pairs) = handle_push_name_sync env pairs
handle_history_sync env (conversations convs) =
    sync_conversations env convs
    ++ send_webhook env "history.sync" (some (history_sync (conversations convs)))
