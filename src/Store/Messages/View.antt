-- ===== src/Store/Messages/View.antt =====
-- The message table of internal/db/repository/message.go as a map from session and message IDs to
-- messages, and its statements as updates of that map.
use onwapp.Base.{if◌then◌else◌, Str, str_eq, ℕ, Bool, ◌&&◌, Option, none, some, List, [], ◌∷◌, ◌++◌}
use onwapp.Store.Messages.{
  Message, MessageStatus, Reaction, Table, get_by_msg_id, merge_cw, inserted, save, merge_history,
  sanitized, save_batch, with_status, update_status, of_others, add_reaction, remove_reaction,
  with_cw, update_cw_fields, delete_message, in_conversation, without_cw, clear_cw_conversation,
  unnamed, update_push_name, unread_among, mark_as_read_by_agent,
}

-- What the table promises: one row at most under each session and message ID.
abbrev pub View : Type 0
View = Str → Str → Option Message

unfoldable pub view : Table → View
unfolding get_by_msg_id
view t s m = get_by_msg_id s m t

-- The statements that change rows, with their arguments: `Save`, `SaveBatch`, `UpdateCwFields`,
-- `UpdateStatus`, `AddReaction`, `RemoveReaction`, `Delete`, `ClearCwConversation`, both updates of
-- names and `MarkAsReadByAgent`.
pub data Statement : Type 0 where
  saves : ℕ → Message → Statement
  saves_batch : ℕ → List Message → Statement
  links_cw : Str → Str → ℕ → ℕ → Str → Statement
  updates_status : ℕ → Str → Str → MessageStatus → Statement
  adds_reaction : Str → Str → Reaction → Statement
  removes_reaction : Str → Str → Str → Statement
  deletes : Str → Str → Statement
  clears_conversation : Str → ℕ → Statement
  names_sender : (Str → Bool) → Str → Str → Statement
  marks_read : ℕ → Str → List Str → Statement

unfoldable pub execute : Statement → Table → Table
execute (saves now msg) t = save now msg t
execute (saves_batch now msgs) t = save_batch now msgs t
execute (links_cw s m cw_msg cw_conv source) t =
    elim (update_cw_fields s m cw_msg cw_conv source t) [ none ↦ t | some t' ↦ t' ]
execute (updates_status now s m st) t = update_status now s m st t
execute (adds_reaction s m r) t = add_reaction s m r t
execute (removes_reaction s m who) t = remove_reaction s m who t
execute (deletes s m) t = delete_message s m t
execute (clears_conversation s conv) t = (clear_cw_conversation s conv t).0
execute (names_sender from s name) t = (update_push_name from s name t).0
execute (marks_read now s ids) t = (mark_as_read_by_agent now s ids t).0

unfoldable pub execute_all : List Statement → Table → Table
unfolding execute
execute_all [] t = t
execute_all (c ∷ cs) t = execute_all cs (execute c t)

-- A map with another value at one key.
unfoldable pub at_key : Str → Str → Option Message → View → View
at_key s m o v s' m' = if str_eq s s' && str_eq m m' then o else v s' m'

-- A map with each of its values changed.
unfoldable pub everywhere : (Message → Message) → View → View
everywhere f v s m = elim (v s m) [ none ↦ none | some row ↦ some (f row) ]

-- The value at one key changed, if there is one.
unfoldable pub change_at : Str → Str → (Message → Message) → View → View
unfolding at_key
change_at s m f v = at_key s m (elim (v s m) [ none ↦ none | some row ↦ some (f row) ]) v

-- An insertion that changes what is there.
unfoldable pub upsert_at : (Message → Message) → Message → View → View
unfolding at_key
upsert_at merge msg v =
    at_key msg.session_id msg.msg_id
      (some (elim (v msg.session_id msg.msg_id) [ none ↦ msg | some row ↦ merge row ])) v

unfoldable pub batch_at : ℕ → List Message → View → View
unfolding upsert_at
batch_at now [] v = v
batch_at now (msg ∷ msgs) v =
    batch_at now msgs (upsert_at (merge_history msg) (sanitized now msg) v)

-- The statements on the map.
unfoldable pub denote : Statement → View → View
unfolding upsert_at batch_at change_at everywhere at_key
denote (saves now msg) v = upsert_at (merge_cw msg) (inserted now msg) v
denote (saves_batch now msgs) v = batch_at now msgs v
denote (links_cw s m cw_msg cw_conv source) v = change_at s m (with_cw cw_msg cw_conv source) v
denote (updates_status now s m st) v = change_at s m (with_status now st) v
denote (adds_reaction s m r) v =
    change_at s m
      (λ row. record row { reactions = of_others r.sender_jid row.reactions ++ (r ∷ []) }) v
denote (removes_reaction s m who) v =
    change_at s m (λ row. record row { reactions = of_others who row.reactions }) v
denote (deletes s m) v = at_key s m none v
denote (clears_conversation s conv) v =
    everywhere (λ row. if in_conversation s conv row then without_cw row else row) v
denote (names_sender from s name) v =
    everywhere (λ row. if unnamed from s row then record row { push_name = name } else row) v
denote (marks_read now s []) v = v
denote (marks_read now s (m ∷ ids)) v =
    everywhere
      (λ row. if unread_among s (m ∷ ids) row then record row { read_at = some now } else row) v

unfoldable pub denote_all : List Statement → View → View
unfolding denote
denote_all [] v = v
denote_all (c ∷ cs) v = denote_all cs (denote c v)
