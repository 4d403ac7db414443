-- ===== src/Chatwoot/Messages/Read.antt =====
-- What read receipts leave of the message table (internal/integrations/chatwoot/service/messages.go).
use onwapp.Base.{
  if◌then◌else◌, Option-cases, Str, ℕ, ◌≡◌, refl, ap₂, ◌∙◌, ◌⊎◌, inl, inr, Bool, true, false,
  Option, none, some, List, [], ◌∷◌, map, arith,
}
use onwapp.Store.Messages.{
  Message, Table, get_by_msg_id, clear_cw_conversation, update_where, in_conversation, without_cw,
}
use onwapp.Chatwoot.Messages.{
  ChatConfig, ChatwootApi, handle_conversation_not_found, conversation_of, unread, update_last_seen,
  read_in_conversation, handle_message_read, process_receipt,
}

-- A message without its references to Chatwoot: all other columns are as they were.
abbrev without_references : Message → Message
without_references row = record row { cw_conv_id = none; cw_msg_id = none; cw_source_id = none }

-- The messages without their references to Chatwoot.
abbrev pub unlinked : Table → Table
unlinked t = map without_references t

same :
    (b : Bool) (row : Message)
    → without_references (if b then without_cw row else row) ≡ without_references row
unfolding without_cw
same true row = refl
same false row = refl

Sum-cases {ℓ κ} :
    {A : Type ℓ} {B : Type κ} (x : A ⊎ B) → ((a : A) × (x ≡ inl a)) ⊎ ((b : B) × (x ≡ inr b))
Sum-cases (inl a) = inl (a, refl)
Sum-cases (inr b) = inr (b, refl)

unlinked-clear :
    (s : Str) (conv : ℕ) (t : Table) → unlinked (clear_cw_conversation s conv t).0 ≡ unlinked t
unfolding clear_cw_conversation update_where
unlinked-clear s conv [] = refl
unlinked-clear s conv (row ∷ t) =
    ap₂ (λ r rs. r ∷ rs) (same (in_conversation s conv row) row) (unlinked-clear s conv t)

unlinked-handle_conversation_not_found :
    (s : Str) (conv : ℕ) (t : Table)
    → unlinked (handle_conversation_not_found s conv t) ≡ unlinked t
unfolding handle_conversation_not_found
unlinked-handle_conversation_not_found s conv t = ground (arith, unlinked-clear s conv t)

unlinked-update_last_seen :
    (api : ChatwootApi) (s inbox source : Str) (conv : ℕ) (t : Table)
    → unlinked (update_last_seen api s inbox source conv t).table ≡ unlinked t
unfolding update_last_seen unread
unlinked-update_last_seen api s inbox source conv t =
    ground (arith, unlinked-handle_conversation_not_found s conv t)

unlinked-read_in_conversation :
    (cfg : ChatConfig) (api : ChatwootApi) (s : Str) (conv : ℕ) (t : Table)
    → unlinked (read_in_conversation cfg api s conv t).table ≡ unlinked t
unfolding read_in_conversation unread
unlinked-read_in_conversation cfg api s conv t = elim (Option-cases (api.get_inbox cfg.inbox_id)) [
  | inl e ↦ ground arith
  | inr (inbox, e) ↦ elim (Sum-cases (api.get_conversation conv)) [
    | inl (text, f) ↦ ground (arith, unlinked-handle_conversation_not_found s conv t)
    | inr (source, f) ↦ ground (arith, unlinked-update_last_seen api s inbox source conv t)
  ]
]

unlinked-handle_message_read :
    (cfg : Option ChatConfig) (api : ChatwootApi) (s m : Str) (t : Table)
    → unlinked (handle_message_read cfg api s m t).table ≡ unlinked t
unfolding handle_message_read unread
unlinked-handle_message_read none api s m t = refl
unlinked-handle_message_read (some cfg) api s m t =
    elim (Option-cases (conversation_of (get_by_msg_id s m t))) [
      | inl e ↦ rw (e, handle_message_read) refl
      | inr (conv, e) ↦ rw (e, handle_message_read) (unlinked-read_in_conversation cfg api s conv t)
    ]

-- Read receipts of a session change no message but for its references to Chatwoot, whatever Chatwoot
-- answers: the messages without these are the same, in the same order.
pub unlinked-process_receipt :
    (cfg : Option ChatConfig) (api : ChatwootApi) (s : Str) (ids : List Str) (t : Table)
    → unlinked (process_receipt cfg api s ids t) ≡ unlinked t
unfolding process_receipt
unlinked-process_receipt cfg api s [] t = refl
unlinked-process_receipt cfg api s (m ∷ ids) t =
    unlinked-process_receipt cfg api s ids (handle_message_read cfg api s m t).table
    ∙ unlinked-handle_message_read cfg api s m t
