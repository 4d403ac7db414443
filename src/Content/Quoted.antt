-- ===== src/Content/Quoted.antt =====
-- The message that a message quotes, in internal/integrations/chatwoot/sync/content.go.
use onwapp.Base.{
  if◌then◌else◌, Option-cases, Str, is_empty, lit, is_empty_iff, ◌≡◌, refl, sym, subst, ◌∙◌, ◌≢◌,
  ◌↔◌, ◌⊎◌, inl, inr, not, none, some, List, [], ◌∷◌, arith,
}
use onwapp.Content.Json.{JsonLib, Message, Fields, object_at, text_at, ◌>>=◌, history_message}

unfoldable pub message_types : List Str
message_types =
    lit "extendedTextMessage"
    ∷ lit "imageMessage"
    ∷ lit "videoMessage"
    ∷ lit "audioMessage"
    ∷ lit "documentMessage"
    ∷ lit "stickerMessage"
    ∷ lit "contactMessage"
    ∷ lit "locationMessage"
    ∷ []

module _ {F : Type 0} where
  -- `message[msgType]["contextInfo"]["stanzaID"]`, empty if it is not there
  pub stanza_of : Fields F → Str → Str
  stanza_of message type = elim (object_at type message >>= object_at (lit "contextInfo")) [
    | none ↦ []
    | some info ↦ text_at (lit "stanzaID") info
  ]

  -- The loop over the message types.
  stanza_loop : Fields F → List Str → Str
  unfolding stanza_of
  stanza_loop message [] = []
  stanza_loop message (type ∷ types) =
      let rest = stanza_loop message types in
      let id = stanza_of message type in if is_empty id then rest else id

  -- `extractStanzaIDFromHistorySync`
  unfoldable pub extract_stanza_id_from_history_sync : Fields F → Str
  unfolding stanza_loop message_types
  extract_stanza_id_from_history_sync raw = elim (history_message raw) [
    | none ↦ []
    | some message ↦ stanza_loop message message_types
  ]

  -- `extractStanzaIDFromRealtime`
  unfoldable pub extract_stanza_id_from_realtime : Fields F → Str
  extract_stanza_id_from_realtime raw = elim (object_at (lit "Info") raw) [
    | none ↦ []
    | some info ↦ text_at (lit "QuotedID") info
  ]

module _ (lib : JsonLib) where
  -- `ExtractQuotedID`
  pub extract_quoted_id : Message → Str
  extract_quoted_id msg =
      if not (is_empty msg.quoted_id)
      then msg.quoted_id
      else if is_empty msg.raw_event
      then []
      else elim (lib.unmarshal msg.raw_event) [
        | none ↦ []
        | some raw ↦
            let synced = extract_stanza_id_from_history_sync raw in
            if is_empty synced then extract_stanza_id_from_realtime raw else synced
      ]

module _ {F : Type 0} where
  -- The message types before the one whose quotation is used have none.
  abbrev pub IsFirst : Fields F → List Str → Str → Type 0
  IsFirst message [] id = id ≡ []
  IsFirst message (type ∷ types) id =
      ((id ≢ []) × (stanza_of message type ≡ id))
      ⊎ ((stanza_of message type ≡ []) × IsFirst message types id)

  stanza_loop-IsFirst :
      (message : Fields F) (types : List Str) → IsFirst message types (stanza_loop message types)
  unfolding stanza_loop
  stanza_loop-IsFirst message [] = refl
  stanza_loop-IsFirst message (type ∷ types) =
      ground (arith, is_empty_iff (stanza_of message type), stanza_loop-IsFirst message types)

  IsFirst-unique :
      (message : Fields F) (types : List Str) (a b : Str)
      → IsFirst message types a
      → IsFirst message types b
      → a ≡ b
  IsFirst-unique message [] a b h k = h ∙ sym k
  IsFirst-unique message (type ∷ types) a b (inl h) (inl k) = sym h.1 ∙ k.1
  IsFirst-unique message (type ∷ types) a b (inl h) (inr k) = absurd (h.0 (sym h.1 ∙ k.0))
  IsFirst-unique message (type ∷ types) a b (inr h) (inl k) = absurd (k.0 (sym k.1 ∙ h.0))
  IsFirst-unique message (type ∷ types) a b (inr h) (inr k) =
      IsFirst-unique message types a b h.1 k.1

  -- From a synchronised event the ID is the quotation of the first message type that has one, in the
  -- order of the table, and empty exactly if none has one or the event holds no message.
  extract_stanza_id_from_history_sync_iff :
      (raw : Fields F) (id : Str)
      → (extract_stanza_id_from_history_sync raw ≡ id) ↔ (
          ((history_message raw ≡ none) × (id ≡ []))
          ⊎ ((message : Fields F) × (history_message raw ≡ some message)
              × IsFirst message message_types id))
  unfolding extract_stanza_id_from_history_sync
  extract_stanza_id_from_history_sync_iff raw id = elim (Option-cases (history_message raw)) [
    | inl e ↦
        rw (e, extract_stanza_id_from_history_sync)
          (λ h. inl (refl, sym h), λ h. elim h [ inl k ↦ sym k.1 | inr (m, f, k) ↦ cc f ])
    | inr (m, e) ↦
        rw (e, extract_stanza_id_from_history_sync)
          (
            λ h.
                inr (
                  m,
                  refl,
                  subst (IsFirst m message_types) h (stanza_loop-IsFirst m message_types),
                ),
            λ h. elim h [
              | inl k ↦ cc (k.0)
              | inr (n, f, k) ↦
                  let same : n ≡ m = ground arith in
                  IsFirst-unique m message_types _ id (stanza_loop-IsFirst m message_types)
                    (subst (λ t. IsFirst t message_types id) same k)
            ],
          )
  ]
