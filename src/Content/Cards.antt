-- ===== src/Content/Cards.antt =====
-- Locations and contacts in internal/integrations/chatwoot/sync/content.go.
use onwapp.Base.{
  if◌then◌else◌, Str, is_empty, lit, contains, behind, split, trim_space, trim_right, Bool, false,
  not, ◌||◌, Option, none, some, List, [], ◌∷◌, ◌++◌,
}
use onwapp.Content.Json.{
  JsonLib, Message, Json, Items, Fields, object, nil, cons, object_at, array_at, text_at, number_at,
  ◌>>=◌, or_else, web_message, history_message, live_message,
}

unfoldable pub msg_location : Str
msg_location = lit "_[📍 Localização]_"

unfoldable pub msg_contact : Str
msg_contact = lit "_[👤 Contato]_"

unfoldable pub msg_contacts : Str
msg_contacts = lit "_[👥 Contatos]_"

-- The line feed.
abbrev newline : Str
newline = b'\n' ∷ []

-- The first line with "TEL" and a colon: what stands behind its colon.
phone_in : List Str → Str
phone_in [] = []
phone_in (line ∷ lines) =
    let rest = phone_in lines in
    elim (behind b':' line) [
      | none ↦ rest
      | some phone ↦ if contains line (lit "TEL") then trim_space phone else rest
    ]

-- `extractPhoneFromVCard`
unfoldable pub extract_phone_from_vcard : Str → Str
unfolding phone_in
extract_phone_from_vcard vcard = if is_empty vcard then [] else phone_in (split b'\n' vcard)

-- `"\n*" + name + "*"`, if there is a name
abbrev pub starred : Str → Str
starred name = if is_empty name then [] else newline ++ lit "*" ++ name ++ lit "*"

module _ (lib : JsonLib) where
  -- `strings.TrimRight(strings.TrimRight(formatFloat(f), "0"), ".")`
  unfoldable pub format_degrees : lib.F → Str
  format_degrees f = trim_right b'.' (trim_right b'0' (lib.format_float f))

  -- `lat != 0 || lng != 0`; a coordinate that is missing is 0, which prints as 0.
  unfoldable pub degrees : Option lib.F → Str
  unfolding format_degrees
  degrees none = lit "0"
  degrees (some f) = format_degrees f

  unfoldable pub is_nonzero : Option lib.F → Bool
  is_nonzero none = false
  is_nonzero (some f) = not (lib.is_zero f)

  -- The text for a location that was found.
  unfoldable pub location_text : Fields lib.F → Str
  unfolding degrees is_nonzero
  location_text m =
      let lat = number_at (lit "degreesLatitude") m in
      let lng = number_at (lit "degreesLongitude") m in
      let name = text_at (lit "name") m in
      let address = text_at (lit "address") m in
      msg_location
      ++ starred name
      ++ (if is_empty address then [] else newline ++ address)
      ++ (if is_nonzero lat || is_nonzero lng
          then newline ++ lit "https://maps.google.com/?q=" ++ degrees lat ++ lit "," ++ degrees lng
          else [])

  unfoldable pub location_fallback : Message → Str
  location_fallback msg =
      if is_empty msg.content then msg_location else msg_location ++ newline ++ msg.content

  unfoldable pub location_in : Fields lib.F → Option (Fields lib.F)
  location_in raw =
      or_else (web_message raw >>= object_at (lit "locationMessage"))
        (history_message raw >>= object_at (lit "locationMessage"))

  -- `extractLocationContent`
  unfoldable pub extract_location_content : Message → Str
  unfolding location_text location_fallback location_in
  extract_location_content msg =
      if is_empty msg.raw_event then location_fallback msg else elim (lib.unmarshal msg.raw_event) [
        | none ↦ msg_location
        | some raw ↦ elim (location_in raw) [
          | none ↦ location_fallback msg
          | some m ↦ location_text m
        ]
      ]

  -- `extractContactContent`
  unfoldable pub contact_fallback : Message → Str
  contact_fallback msg =
      if is_empty msg.content then msg_contact else lit "_[👤 Contato: " ++ msg.content ++ lit "]_"

  unfoldable pub contact_in : Fields lib.F → Option (Fields lib.F)
  contact_in raw = or_else (live_message raw >>= object_at (lit "contactMessage")) (
      or_else (web_message raw >>= object_at (lit "contactMessage"))
        (history_message raw >>= object_at (lit "contactMessage")))

  unfoldable pub contact_text : Fields lib.F → Str
  contact_text m =
      let phone = extract_phone_from_vcard (text_at (lit "vcard") m) in
      msg_contact
      ++ starred (text_at (lit "displayName") m)
      ++ (if is_empty phone then [] else newline ++ phone)

  unfoldable pub extract_contact_content : Message → Str
  unfolding contact_fallback contact_in contact_text
  extract_contact_content msg =
      if is_empty msg.raw_event then contact_fallback msg else elim (lib.unmarshal msg.raw_event) [
        | none ↦ msg_contact
        | some raw ↦ elim (contact_in raw) [ none ↦ contact_fallback msg | some m ↦ contact_text m ]
      ]

  -- `extractContactsArrayContent`
  unfoldable pub contacts_fallback : Message → Str
  contacts_fallback msg =
      if is_empty msg.content then msg_contacts else lit "_[👥 Contatos: " ++ msg.content ++ lit "]_"

  unfoldable pub contacts_of : Fields lib.F → Option (Items lib.F)
  contacts_of message = do
    contacts ← object_at (lit "contactsArrayMessage") message
    array_at (lit "contacts") contacts

  unfoldable pub contacts_in : Fields lib.F → Option (Items lib.F)
  unfolding contacts_of
  contacts_in raw =
      or_else (live_message raw >>= contacts_of)
        (or_else (web_message raw >>= contacts_of) (history_message raw >>= contacts_of))

  -- One contact of the array: its name and its phone.
  unfoldable pub contact_line : Json lib.F → Str
  contact_line (object m) =
      let name = text_at (lit "displayName") m in
      let phone = extract_phone_from_vcard (text_at (lit "vcard") m) in
      (if is_empty name then [] else newline ++ lit "• *" ++ name ++ lit "*")
      ++ (if is_empty phone then [] else lit " - " ++ phone)
  contact_line _ = []

  -- The loop over the array; `b` is the builder.
  unfoldable pub contacts_loop : Str → Items lib.F → Str
  unfolding contact_line
  contacts_loop b nil = b
  contacts_loop b (cons c cs) = contacts_loop (b ++ contact_line c) cs

  unfoldable pub contacts_text : Message → Option (Items lib.F) → Str
  unfolding contacts_fallback contacts_loop
  contacts_text msg none = contacts_fallback msg
  contacts_text msg (some nil) = contacts_fallback msg
  contacts_text msg (some (cons c cs)) = contacts_loop msg_contacts (cons c cs)

  unfoldable pub extract_contacts_array_content : Message → Str
  unfolding contacts_fallback contacts_in contacts_text
  extract_contacts_array_content msg =
      if is_empty msg.raw_event then contacts_fallback msg else elim (lib.unmarshal msg.raw_event) [
        | none ↦ msg_contacts
        | some raw ↦ contacts_text msg (contacts_in raw)
      ]
