-- ===== src/Event/History/Admitted.antt =====
-- Which messages a history synchronisation saves (internal/service/event/connection.go).
use onwapp.Base.{
  ◌==◌, if◌then◌else◌, Option-cases, all, all-append_of, Str, is_empty, lit, str_eq, str_eq_refl,
  ◌≡◌, refl, sym, ap, ap₂, ◌∙◌, inl, inr, Bool, true, false, not, ◌&&◌, ◌||◌, Option, none, some,
  List, [], ◌∷◌, ◌++◌, map, append-nil, append_assoc, arith,
}
use mathlib.Core.List.{map-append}
use onwapp.Store.Messages.{Message}
use onwapp.Event.Extract.{extract_message_type_and_content}
use onwapp.Event.Calls.{HistoryMessage, MessageKey, Conversation, Env}
use onwapp.Event.History.Rows.{is_key_distribution, type_of, history_row, admit}
use onwapp.Event.History.{Collected, collect, messages_loop, conversations_loop, nothing}

-- The rows of a list of messages, one for each that is admitted, in order.
unfoldable pub rows_of : Env → Str → List (Option HistoryMessage) → List Message
unfolding admit
rows_of env chat_jid [] = []
rows_of env chat_jid (h ∷ hs) =
    let rest = rows_of env chat_jid hs in
    elim (admit env chat_jid h) [ none ↦ rest | some (msg, row) ↦ row ∷ rest ]

unfoldable pub all_rows : Env → List Conversation → List Message
unfolding rows_of
all_rows env [] = []
all_rows env (conv ∷ convs) = rows_of env conv.id conv.messages ++ all_rows env convs

rows-messages_loop :
    (env : Env) (chat_jid : Str) (hs : List (Option HistoryMessage)) (c : Collected)
    → (messages_loop env chat_jid hs c).all_messages ≡ c.all_messages ++ rows_of env chat_jid hs
unfolding messages_loop rows_of collect
rows-messages_loop env chat_jid [] c = sym (append-nil c.all_messages)
rows-messages_loop env chat_jid (h ∷ hs) c =
    rows-messages_loop env chat_jid hs (collect env chat_jid h c)
    ∙ elim (Option-cases (admit env chat_jid h)) [
      | inl e ↦ rw (e, collect, rows_of) refl
      | inr ((msg, row), e) ↦
          rw (e, collect, rows_of)
            (append_assoc c.all_messages (row ∷ []) (rows_of env chat_jid hs))
    ]

rows-conversations_loop :
    (env : Env) (convs : List Conversation) (c : Collected)
    → (conversations_loop env convs c).all_messages ≡ c.all_messages ++ all_rows env convs
unfolding conversations_loop all_rows
rows-conversations_loop env [] c = sym (append-nil c.all_messages)
rows-conversations_loop env (conv ∷ convs) c =
    rows-conversations_loop env convs (messages_loop env conv.id conv.messages c)
    ∙ ap (λ ms. ms ++ all_rows env convs) (rows-messages_loop env conv.id conv.messages c)
    ∙ append_assoc c.all_messages (rows_of env conv.id conv.messages) (all_rows env convs)

-- A row of a stub.
unfoldable pub is_stub : Message → Bool
is_stub row = elim row.stub_type [ none ↦ false | some n ↦ true ]

-- A message that may be saved: it has the session's ID and an ID of its own, and it is a stub or
-- something can be read of it.
unfoldable pub is_admissible : Env → Message → Bool
unfolding is_stub str_eq lit
is_admissible env row =
    str_eq row.session_id env.session_id
    && not (is_empty row.msg_id)
    && (is_stub row || not (str_eq row.type_ (lit "unknown") && is_empty row.content))

type_of-is_admissible :
    (h : HistoryMessage) {typed : Str × Str}
    → type_of h ≡ some typed
    → (str_eq typed.0 (lit "unknown") && is_empty typed.1) ≡ false
unfolding type_of lit str_eq
type_of-is_admissible h k = ground arith

admit-is_admissible :
    (env : Env) (chat_jid : Str) (h : Option HistoryMessage) {msg : HistoryMessage} {row : Message}
    → admit env chat_jid h ≡ some (msg, row)
    → is_admissible env row ≡ true
unfolding admit history_row is_admissible
admit-is_admissible env chat_jid none k = ground arith
admit-is_admissible env chat_jid (some h) k = elim (Option-cases (type_of h)) [
  | inl e ↦ ground arith
  | inr (typed, e) ↦ ground (arith, type_of-is_admissible h e, str_eq_refl env.session_id)
]

rows_of-is_admissible :
    (env : Env) (chat_jid : Str) (hs : List (Option HistoryMessage))
    → all (is_admissible env) (rows_of env chat_jid hs) ≡ true
unfolding rows_of
rows_of-is_admissible env chat_jid [] = refl
rows_of-is_admissible env chat_jid (h ∷ hs) = elim (Option-cases (admit env chat_jid h)) [
  | inl e ↦ rw (e, rows_of) (rows_of-is_admissible env chat_jid hs)
  | inr ((msg, row), e) ↦
      rw (e, rows_of, admit-is_admissible env chat_jid h e) (rows_of-is_admissible env chat_jid hs)
]

all_rows-is_admissible :
    (env : Env) (convs : List Conversation) → all (is_admissible env) (all_rows env convs) ≡ true
unfolding all_rows
all_rows-is_admissible env [] = refl
all_rows-is_admissible env (conv ∷ convs) =
    all-append_of (is_admissible env) (rows_of env conv.id conv.messages) (all_rows env convs)
      (rows_of-is_admissible env conv.id conv.messages) (all_rows-is_admissible env convs)

-- A message to be saved: it has a key with an ID, brings no sender keys, and is a stub or can be read.
unfoldable pub is_wanted : HistoryMessage → Str → Bool
unfolding is_key_distribution extract_message_type_and_content str_eq lit
is_wanted h id =
    let (msg_type, text) = extract_message_type_and_content h.message in
    not (is_empty id)
    && not (is_key_distribution h.message)
    && (not (h.stub_type == 0) || not (str_eq msg_type (lit "unknown")) || not (is_empty text))

-- The IDs of the messages to be saved.
unfoldable pub wanted_ids : List (Option HistoryMessage) → List Str
unfolding is_wanted
wanted_ids [] = []
wanted_ids (none ∷ hs) = wanted_ids hs
wanted_ids (some h ∷ hs) =
    let rest = wanted_ids hs in
    elim h.key [ none ↦ rest | some key ↦ if is_wanted h key.id then key.id ∷ rest else rest ]

unfoldable pub all_wanted_ids : List Conversation → List Str
unfolding wanted_ids
all_wanted_ids [] = []
all_wanted_ids (conv ∷ convs) = wanted_ids conv.messages ++ all_wanted_ids convs

ids-rows_of :
    (env : Env) (chat_jid : Str) (hs : List (Option HistoryMessage))
    → map (λ row. row.msg_id) (rows_of env chat_jid hs) ≡ wanted_ids hs
unfolding rows_of wanted_ids is_wanted admit type_of history_row
ids-rows_of env chat_jid [] = refl
ids-rows_of env chat_jid (none ∷ hs) = ids-rows_of env chat_jid hs
ids-rows_of env chat_jid (some h ∷ hs) = elim (Option-cases h.key) [
  | inl k ↦ rw (k) (ids-rows_of env chat_jid hs)
  | inr (key, k) ↦ ground (arith, ids-rows_of env chat_jid hs)
]

ids-all_rows :
    (env : Env) (convs : List Conversation)
    → map (λ row. row.msg_id) (all_rows env convs) ≡ all_wanted_ids convs
unfolding all_rows all_wanted_ids
ids-all_rows env [] = refl
ids-all_rows env (conv ∷ convs) =
    map-append (λ row. row.msg_id) (rows_of env conv.id conv.messages) (all_rows env convs)
    ∙ ap₂ (λ a b. a ++ b) (ids-rows_of env conv.id conv.messages) (ids-all_rows env convs)

-- The messages that a history synchronisation collects are, by their IDs and in the order of the
-- conversations, exactly those that have a key with an ID, bring no sender keys, and are stubs or
-- can be read. Each has the session's ID and an ID of its own, and is a stub or can be read.
pub conversations_loop_lem :
    (env : Env) (convs : List Conversation)
    → let found = (conversations_loop env convs nothing).all_messages in
      (map (λ row. row.msg_id) found ≡ all_wanted_ids convs)
      × (all (is_admissible env) found ≡ true)
conversations_loop_lem env convs =
    let same = rows-conversations_loop env convs nothing in
    rw (same) (ids-all_rows env convs, all_rows-is_admissible env convs)

-- The test for sender keys in the broadcast flag of an admitted message is never what sets it: the
-- flag says that the message went to the status broadcast or is marked as a broadcast.
pub broadcast_lem :
    (env : Env) (chat_jid : Str) (h : HistoryMessage) (key : MessageKey) {msg : HistoryMessage}
    {row : Message}
    → h.key ≡ some key
    → admit env chat_jid (some h) ≡ some (msg, row)
    → row.broadcast ≡ (str_eq key.remote_jid (lit "status@broadcast") || h.broadcast)
unfolding admit history_row
broadcast_lem env chat_jid h key k a = ground arith
