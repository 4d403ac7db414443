-- ===== src/Event/Incoming/Saved.antt =====
-- What a message event of internal/service/event/message.go does to the message table.
use onwapp.Base.{
  if◌then◌else◌, Bool-cases, Option-cases, Str, is_empty, lit, str_eq, str_eq_refl, ℕ, ◌≡◌, refl,
  ap, ◌∙◌, ◌⊎◌, inl, inr, Bool, true, false, not, ◌&&◌, none, some, [], ◌∷◌, ◌++◌, arith,
}
use onwapp.Store.Messages.{sent, delivered, Message, Table, inserted, merge_cw, coalesce}
use onwapp.Store.Messages.View.{saves, view, execute_all, denote, upsert_at, at_key}
use onwapp.Store.Messages.Refinement.{execute-denote}
use onwapp.Event.{MessageEvent, WaMessage, absent, message}
use onwapp.Event.Extract.{extract_message_type_and_content}
use onwapp.Event.Calls.{received, increments_unread, Env, send_webhook}
use onwapp.Event.Calls.Tables.{
  statement_in, statements, stored, statements-append, statements-send_webhook,
}
use onwapp.Event.Incoming.{
  new_message, keep_media, handle_new_message, handle_parts, handle_wa, handle_message,
}

-- A message that brings no keys, no reaction and no protocol message.
unfoldable pub is_content : WaMessage → Bool
is_content absent = true
is_content (message p ed v w) =
    not p.sender_key_distribution
    && elim p.reaction [ none ↦ true | some r ↦ false ]
    && elim p.protocol [ none ↦ true | some proto ↦ false ]

-- A new message of which something can be read.
unfoldable pub is_new : MessageEvent → Bool
unfolding is_content extract_message_type_and_content str_eq lit
is_new e =
    let (msg_type, text) = extract_message_type_and_content e.message in
    is_content e.message && not e.is_edit && not (str_eq msg_type (lit "unknown") && is_empty text)

handle_wa_new :
    (env : Env) (e : MessageEvent) (m : WaMessage)
    → is_content m ≡ true
    → e.is_edit ≡ false
    → handle_wa env e m ≡ handle_new_message env e
unfolding handle_wa handle_parts is_content
handle_wa_new env e absent h k = ground arith
handle_wa_new env e (message p ed v w) h k = ground arith

module _ (like : Str → Str → Bool) (now : ℕ) (env : Env) (e : MessageEvent) where
  statements-keep_media : statements like now env.session_id (keep_media env e) ≡ []
  unfolding statements statement_in keep_media
  statements-keep_media = ground arith

  statements-handle_new_message :
      is_new e ≡ true
      → statements like now env.session_id (handle_new_message env e)
        ≡ saves now (new_message env e) ∷ []
  unfolding statements statement_in handle_new_message is_new
  statements-handle_new_message h =
      let counted = if e.is_from_me then [] else increments_unread e.chat ∷ [] in
      let hook = send_webhook env "message.received" (some (received e)) in
      ground (
        arith,
        statements-append like now env.session_id (counted ++ keep_media env e) hook,
        statements-append like now env.session_id counted (keep_media env e),
        statements-keep_media,
        statements-send_webhook like now env.session_id env "message.received" (some (received e)),
      )

  handle_message_new : is_new e ≡ true → handle_message env e ≡ handle_new_message env e
  unfolding handle_message is_new
  handle_message_new h = handle_wa_new env e e.message (ground arith) (ground arith)

  view-handle_message_as_saved :
      (t : Table) (s m : Str)
      → is_new e ≡ true
      → let msg = new_message env e in
        view (stored like now env.session_id (handle_message env e) t) s m
        ≡ upsert_at (merge_cw msg) (inserted now msg) (view t) s m
  unfolding stored execute_all denote
  view-handle_message_as_saved t s m h =
      ap (λ cs. view (execute_all cs t) s m)
        (ap (statements like now env.session_id) (handle_message_new h)
          ∙ statements-handle_new_message h)
      ∙ execute-denote (saves now (new_message env e)) t s m

  -- The row of a message that arrives: its own sending or its delivery is known, not its reading.
  abbrev pub IsArrival : Message → Type 0
  IsArrival row =
      (row.session_id ≡ env.session_id)
      × (row.msg_id ≡ e.id)
      × (row.chat_jid ≡ e.chat)
      × (row.sender_jid ≡ e.sender)
      × (row.timestamp ≡ e.timestamp)
      × (row.type_ ≡ (extract_message_type_and_content e.message).0)
      × (row.content ≡ (extract_message_type_and_content e.message).1)
      × (row.from_me ≡ e.is_from_me)
      × (((e.is_from_me ≡ true) × (row.status ≡ sent) × (row.delivered_at ≡ none))
          ⊎ ((e.is_from_me ≡ false)
              × (row.status ≡ delivered)
              × (row.delivered_at ≡ some e.timestamp)))
      × (row.read_at ≡ none)
      × (row.reactions ≡ [])
      × (row.created_at ≡ now)

  new_message-IsArrival : IsArrival (inserted now (new_message env e))
  unfolding inserted new_message
  new_message-IsArrival = (
    refl,
    refl,
    refl,
    refl,
    refl,
    refl,
    refl,
    refl,
    elim (Bool-cases e.is_from_me) [
      | inl h ↦ inl (h, ground arith, ground arith)
      | inr h ↦ inr (h, ground arith, ground arith)
    ],
    refl,
    refl,
    refl,
  )

  saved_new :
      (t : Table) (s m : Str)
      → upsert_at (merge_cw (new_message env e)) (inserted now (new_message env e)) (view t) s m ≡ (
          if str_eq env.session_id s && str_eq e.id m
          then some (elim (view t env.session_id e.id) as (λ x. Message) [
            | none ↦ inserted now (new_message env e)
            | some old ↦ record old { cw_source_id = some [] }
          ])
          else view t s m)
  unfolding upsert_at at_key merge_cw inserted new_message coalesce
  saved_new t s m = elim (Option-cases (view t env.session_id e.id)) [
    | inl k ↦ rw (k) refl
    | inr (old, k) ↦ rw (k) refl
  ]

  -- A new message of which something can be read is in the table afterwards: where the table did not
  -- have it, as a row with the event's IDs, sender, time, type and content, which is sent if it is
  -- the session's own, and else delivered at its own time; where the table had it, with an empty
  -- Chatwoot source ID and all else as it was. No other message changes.
  pub view-handle_message :
      (t : Table) (s m : Str)
      → is_new e ≡ true
      → (row : Message) × IsArrival row
        × (view (stored like now env.session_id (handle_message env e) t) s m ≡ (
            if str_eq env.session_id s && str_eq e.id m
            then some (elim (view t env.session_id e.id) as (λ x. Message) [
              | none ↦ row
              | some old ↦ record old { cw_source_id = some [] }
            ])
            else view t s m))
  view-handle_message t s m h = (
    inserted now (new_message env e),
    new_message-IsArrival,
    view-handle_message_as_saved t s m h ∙ saved_new t s m,
  )

  -- A message that is received again loses the source ID that Chatwoot's side gave it, and keeps the
  -- numbers of its Chatwoot message and conversation and its status.
  pub received_again :
      (t : Table) {old : Message}
      → is_new e ≡ true
      → view t env.session_id e.id ≡ some old
      → view (stored like now env.session_id (handle_message env e) t) env.session_id e.id
        ≡ some (record old { cw_source_id = some [] })
  unfolding upsert_at at_key merge_cw inserted new_message coalesce
  received_again t {old} h k = ground (
    arith,
    view-handle_message_as_saved t env.session_id e.id h,
    str_eq_refl env.session_id,
    str_eq_refl e.id,
  )
