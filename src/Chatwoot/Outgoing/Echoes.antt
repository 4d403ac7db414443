-- ===== src/Chatwoot/Outgoing/Echoes.antt =====
-- Which messages of Chatwoot go to WhatsApp (internal/integrations/chatwoot/service/webhook.go).
use onwapp.Base.{
  ==_iff, ==_refl, Bool-cases, Option-cases, Str, is_empty, lit, has_prefix, str_eq_iff,
  is_empty_iff, ℤ, pos, negsuc, ◌≡◌, refl, ap, subst, ◌≢◌, ◌↔◌, ◌⊎◌, inl, inr, true, false, Option,
  none, some, List, [], ◌∷◌, ◌++◌, arith,
}
use onwapp.Phone.{jid_to_whatsapp}
use onwapp.Chatwoot.Outgoing.{
  ConversationMessage, Contact, WebhookPayload, Config, Outgoing, ignored, missing_metadata,
  sending, eq_ℤ, has_imported, chat_jid, is_imported, is_outgoing, get_webhook_data_for_sending,
}

eq_ℤ-sound : (a b : ℤ) → eq_ℤ a b ≡ true → a ≡ b
eq_ℤ-sound (pos a) (pos b) h = ap pos ((==_iff a b).0 h)
eq_ℤ-sound (pos a) (negsuc b) h = cc h
eq_ℤ-sound (negsuc a) (pos b) h = cc h
eq_ℤ-sound (negsuc a) (negsuc b) h = ap negsuc ((==_iff a b).0 h)

eq_ℤ-refl : (a : ℤ) → eq_ℤ a a ≡ true
eq_ℤ-refl (pos a) = ==_refl a
eq_ℤ-refl (negsuc a) = ==_refl a

-- A source ID that the mirroring of WhatsApp into Chatwoot gives.
abbrev pub IsMirrored : Str → Type 0
IsMirrored source = has_prefix source (lit "WAID:") ≡ true

nonempty_of_IsMirrored : (s : Str) → IsMirrored s → is_empty s ≡ false
unfolding has_prefix lit
nonempty_of_IsMirrored [] h = cc h
nonempty_of_IsMirrored (c ∷ s) h = refl

-- A message of this ID among those of the conversation is mirrored.
abbrev pub IsListedEcho : ℤ → List ConversationMessage → Type 0
IsListedEcho id [] = ⊥
IsListedEcho id (m ∷ ms) = (IsMirrored m.source_id × (m.id ≡ id)) ⊎ IsListedEcho id ms

has_imported_iff :
    (id : ℤ) (ms : List ConversationMessage) → (has_imported id ms ≡ true) ↔ IsListedEcho id ms
unfolding has_imported
has_imported_iff id [] = ((λ h. cc h), λ h. absurd h)
has_imported_iff id (m ∷ ms) =
    let rest = has_imported_iff id ms in
    (
      λ h. ground (arith, eq_ℤ-sound m.id id, rest.0),
      λ h. elim h [
        | inl (mirrored, same) ↦
            let e : eq_ℤ m.id id ≡ true = subst (λ i. eq_ℤ m.id i ≡ true) same (eq_ℤ-refl m.id) in
            ground arith
        | inr later ↦ ground (arith, rest.1 later)
      ],
    )

nonempty_append : (s t : Str) → t ≢ [] → s ++ t ≢ []
nonempty_append [] t h e = h e
nonempty_append (c ∷ s) t h e = cc e

at_server : lit "@s.whatsapp.net" ≢ []
unfolding lit
at_server e = cc e

chat_jid_nonempty : (contact : Contact) → chat_jid contact ≢ []
unfolding chat_jid jid_to_whatsapp
chat_jid_nonempty contact = elim (Bool-cases (is_empty contact.identifier)) [
  | inl e ↦ rw (e, chat_jid) (nonempty_append _ (lit "@s.whatsapp.net") at_server)
  | inr e ↦ λ none_left. ground (arith, is_empty_iff contact.identifier)
]

module _ {A : Type 0} where
  -- The message was written by an agent for the contact.
  abbrev pub IsForContact : WebhookPayload A → Type 0
  IsForContact p =
      (p.is_private ≡ false) × ((p.message_type ≡ lit "outgoing") ⊎ (p.message_type ≡ lit "1"))

  -- The message is mirrored: its own source ID says so, or that of its copy in the conversation.
  abbrev pub IsEcho : WebhookPayload A → Type 0
  IsEcho p =
      IsMirrored p.source_id
      ⊎ (elim p.conversation as (λ x. Type 0) [ none ↦ ⊥ | some c ↦ IsListedEcho p.id c.messages ])

  is_imported_iff : (p : WebhookPayload A) → (is_imported p ≡ true) ↔ IsEcho p
  unfolding is_imported
  is_imported_iff p = elim (Option-cases p.conversation) [
    | inl e ↦ ground (arith, nonempty_of_IsMirrored p.source_id)
    | inr (c, e) ↦
        ground (arith, nonempty_of_IsMirrored p.source_id, has_imported_iff p.id c.messages)
  ]

  is_outgoing_iff :
      (p : WebhookPayload A)
      → (is_outgoing p ≡ true) ↔ ((p.message_type ≡ lit "outgoing") ⊎ (p.message_type ≡ lit "1"))
  unfolding is_outgoing
  is_outgoing_iff p =
      ground
        (arith, str_eq_iff p.message_type (lit "outgoing"), str_eq_iff p.message_type (lit "1"))

  -- The contact that the payload names.
  abbrev pub named : WebhookPayload A → Option Contact
  named p = elim p.conversation [ none ↦ none | some c ↦ c.meta_sender ]

  abbrev pub IsSending : Outgoing A → Type 0
  IsSending (sending jid content files) = jid ≢ []
  IsSending _ = ⊥

  -- With Chatwoot enabled for the session, a message is passed over without an error exactly if it
  -- is private, not outgoing, or mirrored from WhatsApp. Any other is sent, to a JID that is not
  -- empty, exactly if the payload names a contact, and is an error exactly if it names none.
  pub get_webhook_data_for_sending_iff :
      (cfg : Config) (p : WebhookPayload A)
      → let out = get_webhook_data_for_sending (some cfg) p in
        ((out ≡ ignored) ↔ ((¬ IsForContact p) ⊎ (IsForContact p × IsEcho p)))
        × (IsSending out ↔ (IsForContact p × (¬ IsEcho p) × (named p ≢ none)))
        × ((out ≡ missing_metadata) ↔ (IsForContact p × (¬ IsEcho p) × (named p ≡ none)))
  unfolding get_webhook_data_for_sending
  get_webhook_data_for_sending_iff cfg p =
      let outgoing = is_outgoing_iff p in
      let imported = is_imported_iff p in
      elim (Option-cases p.conversation) [
        | inl e ↦ ground arith
        | inr (c, e) ↦ elim (Option-cases c.meta_sender) [
          | inl f ↦ ground arith
          | inr (contact, f) ↦ ground (arith, chat_jid_nonempty contact)
        ]
      ]
