-- ===== src/Content/Labels.antt =====
-- Messages and their labels (internal/integrations/chatwoot/sync/content.go).
use onwapp.Base.{
  Option-cases, all, Str, lit, one_of, has_prefix, has_prefix-append_left, one_of-all, ◌≡◌, refl,
  inl, inr, true, not, Option, none, some, List, [], ◌∷◌, ◌++◌, arith,
}
use onwapp.Content.Json.{JsonLib, Message, Items, Fields, nil, cons}
use onwapp.Content.Cards.{
  msg_location, msg_contact, msg_contacts, extract_location_content, extract_contact_content,
  extract_contacts_array_content, contacts_loop, contact_line, location_text, contact_text,
  contacts_fallback, location_in, contact_in, contacts_in, contacts_text,
}
use onwapp.Content.Replies.{
  msg_response, extract_button_reply_content, response_text, selected_text,
}
use onwapp.Content.Interactive.{by_type, extract_interactive_content}
use onwapp.Content.Format.{format_media_content, format_message_content, get_message_content}

-- The text begins with "_[".
abbrev pub HasLabel : Str → Type 0
HasLabel s = has_prefix s (lit "_[") ≡ true

constants-HasLabel :
    HasLabel msg_location
    × HasLabel msg_contact
    × HasLabel msg_contacts
    × HasLabel msg_response
    × HasLabel (lit "_[")
    × HasLabel (lit "_[👤 Contato: ")
    × HasLabel (lit "_[👥 Contatos: ")
    × HasLabel (lit "_[Documento: ")
    × HasLabel (lit "_[Documento]_")
    × HasLabel (lit "_[🎨 Sticker]_")
unfolding msg_location msg_contact msg_contacts msg_response lit has_prefix
constants-HasLabel = (refl, refl, refl, refl, refl, refl, refl, refl, refl, refl)

longer : (s t : Str) → HasLabel s → HasLabel (s ++ t)
longer s t h = has_prefix-append_left s t (lit "_[") h

media-HasLabel : (label caption : Str) → HasLabel (format_media_content label caption)
unfolding format_media_content
media-HasLabel label [] = longer _ _ (longer (lit "_[") label constants-HasLabel.4)
media-HasLabel label (c ∷ s) =
    longer _ _ (longer _ _ (longer (lit "_[") label constants-HasLabel.4))

-- The types whose messages carry a label.
abbrev pub labelled_types : List Str
labelled_types =
    lit "image"
    ∷ lit "video"
    ∷ lit "audio"
    ∷ lit "document"
    ∷ lit "sticker"
    ∷ lit "location"
    ∷ lit "contact"
    ∷ lit "contacts"
    ∷ lit "button_reply"
    ∷ lit "button_response"
    ∷ []

abbrev extracted_types : List Str
extracted_types = lit "list" ∷ lit "template" ∷ lit "buttons" ∷ lit "interactive" ∷ []

none_extracted : all (λ t. not (one_of t extracted_types)) labelled_types ≡ true
unfolding one_of lit
none_extracted = refl

module _ (lib : JsonLib) where
  location_text-HasLabel : (m : Fields lib.F) → HasLabel (location_text lib m)
  unfolding location_text
  location_text-HasLabel m = longer _ _ (longer _ _ (longer msg_location _ constants-HasLabel.0))

  location-HasLabel : (msg : Message) → HasLabel (extract_location_content lib msg)
  unfolding extract_location_content
  location-HasLabel msg =
      let plain = constants-HasLabel.0 in
      let fallback = longer _ msg.content (longer msg_location (b'\n' ∷ []) plain) in
      elim (Option-cases (lib.unmarshal msg.raw_event)) [
        | inl e ↦ ground (arith, plain, fallback)
        | inr (raw, e) ↦ elim (Option-cases (location_in lib raw)) [
          | inl f ↦ ground (arith, plain, fallback)
          | inr (m, f) ↦ ground (arith, plain, fallback, location_text-HasLabel m)
        ]
      ]

  contact_text-HasLabel : (m : Fields lib.F) → HasLabel (contact_text lib m)
  unfolding contact_text
  contact_text-HasLabel m = longer _ _ (longer msg_contact _ constants-HasLabel.1)

  contact-HasLabel : (msg : Message) → HasLabel (extract_contact_content lib msg)
  unfolding extract_contact_content
  contact-HasLabel msg =
      let plain = constants-HasLabel.1 in
      let fallback =
        longer _ (lit "]_") (longer (lit "_[👤 Contato: ") msg.content constants-HasLabel.5) in
      elim (Option-cases (lib.unmarshal msg.raw_event)) [
        | inl e ↦ ground (arith, plain, fallback)
        | inr (raw, e) ↦ elim (Option-cases (contact_in lib raw)) [
          | inl f ↦ ground (arith, plain, fallback)
          | inr (m, f) ↦ ground (arith, plain, fallback, contact_text-HasLabel m)
        ]
      ]

  contacts_loop-HasLabel :
      (b : Str) (cs : Items lib.F) → HasLabel b → HasLabel (contacts_loop lib b cs)
  unfolding contacts_loop
  contacts_loop-HasLabel b nil h = h
  contacts_loop-HasLabel b (cons c cs) h =
      contacts_loop-HasLabel (b ++ contact_line lib c) cs (longer b _ h)

  contacts_fallback-HasLabel : (msg : Message) → HasLabel (contacts_fallback lib msg)
  unfolding contacts_fallback
  contacts_fallback-HasLabel msg = ground (
    arith,
    constants-HasLabel.2,
    longer _ (lit "]_") (longer (lit "_[👥 Contatos: ") msg.content constants-HasLabel.6),
  )

  contacts_text-HasLabel :
      (msg : Message) (o : Option (Items lib.F)) → HasLabel (contacts_text lib msg o)
  unfolding contacts_text
  contacts_text-HasLabel msg none = contacts_fallback-HasLabel msg
  contacts_text-HasLabel msg (some nil) = contacts_fallback-HasLabel msg
  contacts_text-HasLabel msg (some (cons c cs)) =
      contacts_loop-HasLabel msg_contacts (cons c cs) constants-HasLabel.2

  contacts-HasLabel : (msg : Message) → HasLabel (extract_contacts_array_content lib msg)
  unfolding extract_contacts_array_content
  contacts-HasLabel msg = elim (Option-cases (lib.unmarshal msg.raw_event)) [
    | inl e ↦ ground (arith, constants-HasLabel.2, contacts_fallback-HasLabel msg)
    | inr (raw, e) ↦
        ground
          (arith, contacts_fallback-HasLabel msg, contacts_text-HasLabel msg (contacts_in lib raw))
  ]

  response_text-HasLabel : (s : Str) → HasLabel (response_text lib s)
  unfolding response_text
  response_text-HasLabel [] = constants-HasLabel.3
  response_text-HasLabel (c ∷ s) = longer _ _ (longer msg_response (lit " ") constants-HasLabel.3)

  reply-HasLabel : (msg : Message) → HasLabel (extract_button_reply_content lib msg)
  unfolding extract_button_reply_content
  reply-HasLabel msg =
      let plain = constants-HasLabel.3 in
      let stored = longer _ msg.content (longer msg_response (lit " ") plain) in
      elim (Option-cases (lib.unmarshal msg.raw_event)) [
        | inl e ↦ ground (arith, plain, stored)
        | inr (raw, e) ↦
            ground (arith, plain, stored, response_text-HasLabel (selected_text lib raw))
      ]

  format-HasLabel :
      (msg : Message)
      → one_of msg.type labelled_types ≡ true
      → HasLabel (format_message_content lib msg)
  unfolding format_message_content one_of
  format-HasLabel msg h =
      let (_, _, _, _, _, _, _, document, bare, sticker) = constants-HasLabel in
      ground (
        arith,
        media-HasLabel (lit "Imagem") msg.content,
        media-HasLabel (lit "Vídeo") msg.content,
        media-HasLabel (lit "Áudio") msg.content,
        longer _ (lit "]_") (longer (lit "_[Documento: ") msg.content document),
        bare,
        sticker,
        location-HasLabel msg,
        contact-HasLabel msg,
        contacts-HasLabel msg,
        reply-HasLabel msg,
      )

  extract-labelled :
      (msg : Message)
      → one_of msg.type labelled_types ≡ true
      → extract_interactive_content lib msg ≡ []
  unfolding extract_interactive_content by_type one_of
  extract-labelled msg h =
      let other =
        one_of-all (λ t. not (one_of t extracted_types)) msg.type labelled_types h none_extracted in
      ground arith

  -- A message of one of the types image, video, audio, document, sticker, location, contact,
  -- contacts, button_reply and button_response is shown with a text that begins with a label "_[",
  -- whatever its content and its raw event hold.
  pub get_message_content-HasLabel :
      (msg : Message)
      → one_of msg.type labelled_types ≡ true
      → HasLabel (get_message_content lib msg)
  unfolding get_message_content
  get_message_content-HasLabel msg h = ground (arith, extract-labelled msg h, format-HasLabel msg h)
