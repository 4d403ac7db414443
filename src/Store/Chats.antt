-- ===== src/Store/Chats.antt =====
-- internal/db/repository/chat.go and internal/model/chat.go: the table "onWappChat" as a list of
-- rows, and the statements on it. A NULL is `none`.
pub mod Counters
use onwapp.Base.{
  ltb, if◌then◌else◌, length, drop, Str, is_empty, lit, str_eq, ℕ, ◌+◌, ◌-◌, Bool, true, false,
  ◌&&◌, ◌||◌, Option, none, some, List, [], ◌∷◌, ◌++◌, map,
}

-- `Chat`
pub record Chat : Type 0 where
  pub session_id : Str
  pub chat_jid : Str
  pub name : Str
  pub unread_count : ℕ
  pub unread_mention_count : ℕ
  pub marked_as_unread : Bool
  pub ephemeral_expiration : ℕ
  pub ephemeral_setting_timestamp : ℕ
  pub read_only : Bool
  pub suspended : Bool
  pub locked : Bool
  pub limit_sharing : Bool
  pub comments_count : ℕ
  pub conversation_timestamp : Option ℕ
  pub p_hash : Str
  pub not_spam : Option Bool
  pub synced_at : ℕ
  pub updated_at : ℕ

abbrev pub Chats : Type 0
Chats = List Chat

-- `WHERE "sessionId" = $1 AND "chatJid" = $2`
unfoldable pub is_chat : Str → Str → Chat → Bool
unfolding str_eq
is_chat s jid c = str_eq c.session_id s && str_eq c.chat_jid jid

-- `GetByJID`
unfoldable pub get_by_jid : Str → Str → Chats → Option Chat
unfolding is_chat
get_by_jid s jid [] = none
get_by_jid s jid (c ∷ cs) =
    let rest = get_by_jid s jid cs in if is_chat s jid c then some c else rest

unfoldable pub update_chat : Str → Str → (Chat → Chat) → Chats → Chats
unfolding is_chat
update_chat s jid f cs = map (λ c. if is_chat s jid c then f c else c) cs

-- `GREATEST`, which passes over a NULL.
unfoldable pub greatest : Option ℕ → Option ℕ → Option ℕ
greatest none b = b
greatest (some a) none = some a
greatest (some a) (some b) = if ltb a b then some b else some a

unfoldable pub upsert_chat : (Chat → Chat) → Chat → Chats → Chats
unfolding get_by_jid update_chat
upsert_chat merge c cs = elim (get_by_jid c.session_id c.chat_jid cs) [
  | none ↦ cs ++ (c ∷ [])
  | some old ↦ update_chat c.session_id c.chat_jid merge cs
]

-- The columns that `Save` writes into a row that is there; a Go string is never NULL.
unfoldable pub merge_chat : ℕ → Chat → Chat → Chat
unfolding greatest
merge_chat now new old = record new {
  session_id = old.session_id;
  chat_jid = old.chat_jid;
  conversation_timestamp = greatest new.conversation_timestamp old.conversation_timestamp;
  synced_at = old.synced_at;
  updated_at = now;
}

-- `Save`
unfoldable pub save_chat : ℕ → Chat → Chats → Chats
unfolding upsert_chat merge_chat
save_chat now c cs =
    upsert_chat (merge_chat now c) (record c { synced_at = now; updated_at = now }) cs

-- The columns that `SaveBatch` writes into a row that is there.
unfoldable pub merge_counts : ℕ → Chat → Chat → Chat
unfolding greatest
merge_counts now new old = record old {
  name = new.name;
  unread_count = new.unread_count;
  unread_mention_count = new.unread_mention_count;
  conversation_timestamp = greatest new.conversation_timestamp old.conversation_timestamp;
  updated_at = now;
}

-- `SaveBatch`
unfoldable pub save_chats : ℕ → List Chat → Chats → Chats
unfolding upsert_chat merge_counts
save_chats now [] cs = cs
save_chats now (c ∷ new) cs =
    save_chats now new
      (upsert_chat (merge_counts now c) (record c { synced_at = now; updated_at = now }) cs)

-- `UpdateUnreadCount`
unfoldable pub update_unread_count : ℕ → Str → Str → ℕ → ℕ → Chats → Chats
unfolding update_chat
update_unread_count now s jid unread mentions cs =
    update_chat s jid
      (λ c. record c { unread_count = unread; unread_mention_count = mentions; updated_at = now })
      cs

-- The columns of `MarkAsRead`.
unfoldable pub as_read : ℕ → Chat → Chat
as_read now c = record c {
  unread_count = 0;
  unread_mention_count = 0;
  marked_as_unread = false;
  updated_at = now;
}

-- `MarkAsRead`
unfoldable pub mark_as_read : ℕ → Str → Str → Chats → Chats
unfolding update_chat as_read
mark_as_read now s jid cs = update_chat s jid (as_read now) cs

-- `IncrementUnreadCount`
unfoldable pub increment_unread_count : ℕ → Str → Str → Chats → Chats
unfolding update_chat
increment_unread_count now s jid cs =
    update_chat s jid (λ c. record c { unread_count = c.unread_count + 1; updated_at = now }) cs

-- Whether the column is NULL or before a time.
unfoldable pub is_before : Option ℕ → ℕ → Bool
is_before none t = true
is_before (some a) t = ltb a t

-- The columns of `UpdateConversationTimestamp`, with its last condition.
unfoldable pub with_timestamp : ℕ → ℕ → Chat → Chat
unfolding is_before
with_timestamp now t c =
    if is_before c.conversation_timestamp t
    then record c { conversation_timestamp = some t; updated_at = now }
    else c

-- `UpdateConversationTimestamp`
unfoldable pub update_conversation_timestamp : ℕ → Str → Str → ℕ → Chats → Chats
unfolding update_chat with_timestamp
update_conversation_timestamp now s jid t cs = update_chat s jid (with_timestamp now t) cs

-- `Chat.IsGroup`: `none` is the panic of a slice that begins before the text.
unfoldable pub is_group : Chat → Option Bool
unfolding str_eq lit
is_group c =
    if is_empty c.chat_jid
    then some false
    else if ltb (length c.chat_jid) 12
    then none
    else some (str_eq (drop (length c.chat_jid - 12) c.chat_jid) (lit "@g.us"))

-- `HasUnread`
unfoldable pub has_unread : Chat → Bool
has_unread c = ltb 0 c.unread_count || c.marked_as_unread
