-- ===== src/Event/Extract.antt =====
-- What is read out of a message: extractMessageTypeAndContent, extractMediaInfo and
-- extractContextInfo of internal/service/event/message.go. The coordinates of a location are
-- printed already.
pub mod Wrapped
use onwapp.Base.{
  if◌then◌else◌, Str, is_empty, lit, ℕ, Bool, true, false, Option, none, some, List, [], ◌∷◌, ◌++◌,
}
use Prim.Native.String.{String}
use onwapp.Event.{
  ContextInfo, TextPart, FilePart, ContactsPart, ReactionPart, Parts, WaMessage, absent, message,
}

-- The first answer of a chain of `if`s.
unfoldable pub first_of {ℓ} : {A : Type ℓ} → List (Option A) → Option A
first_of [] = none
first_of (none ∷ os) = first_of os
first_of (some a ∷ os) = some a

-- A part that is there answers with a type and a text.
unfoldable pub as_type {ℓ} : {A : Type ℓ} → String → (A → Str) → Option A → Option (Str × Str)
unfolding lit
as_type name f none = none
as_type name f (some a) = some (lit name, f a)

-- A part that is there answers with a type alone.
unfoldable pub if_present : String → Bool → Option (Str × Str)
unfolding lit
if_present name b = if b then some (lit name, []) else none

-- `contactList[0].GetDisplayName()`
unfoldable pub first_name : List Str → Str
first_name [] = []
first_name (n ∷ ns) = n

-- The parts that come before the protocol message.
unfoldable pub before_protocol : Parts → Option (Str × Str)
unfolding first_of as_type if_present first_name lit
before_protocol p = first_of (
    (if is_empty p.conversation then none else some (lit "text", p.conversation))
    ∷ as_type "text" (λ t. t.text) p.extended_text
    ∷ as_type "image" (λ f. f.caption) p.image
    ∷ as_type "video" (λ f. f.caption) p.video
    ∷ as_type "audio" (λ f. []) p.audio
    ∷ as_type "document" (λ f. f.file_name) p.document
    ∷ as_type "sticker" (λ f. []) p.sticker
    ∷ as_type "location" (λ l. l.0 ++ lit "," ++ l.1) p.location
    ∷ as_type "contact" (λ c. c.text) p.contact
    ∷ as_type "contacts" (λ c. first_name c.display_names) p.contacts_array
    ∷ as_type "reaction" (λ r. r.text) p.reaction
    ∷ as_type "poll" (λ t. t) p.poll_creation
    ∷ [])

-- The body of an interactive message may be missing.
unfoldable pub body_text : Option Str → Str
body_text none = []
body_text (some t) = t

-- The parts between the protocol message and the view-once messages.
unfoldable pub behind_protocol : Parts → Option (Str × Str)
unfolding first_of as_type if_present body_text
behind_protocol p = first_of (
    as_type "buttons" (λ t. t) p.buttons
    ∷ as_type "list" (λ t. t) p.list
    ∷ if_present "template" p.template
    ∷ as_type "button_reply" (λ t. t) p.template_button_reply
    ∷ as_type "button_response" (λ t. t) p.buttons_response
    ∷ as_type "list_response" (λ t. t) p.list_response
    ∷ as_type "interactive" body_text p.interactive
    ∷ if_present "interactive_response" p.interactive_response
    ∷ if_present "product" p.product
    ∷ if_present "order" p.order
    ∷ if_present "live_location" p.live_location
    ∷ [])

abbrev pub is_absent : WaMessage → Bool
is_absent absent = true
is_absent (message p e v w) = false

-- `extractMessageTypeAndContent`
unfoldable pub extract_message_type_and_content : WaMessage → Str × Str
unfolding before_protocol behind_protocol lit
extract_message_type_and_content absent = (lit "unknown", [])
extract_message_type_and_content (message p edited v w) =
    let in_edited = extract_message_type_and_content edited in
    let in_v = extract_message_type_and_content v in
    let in_w = extract_message_type_and_content w in
    elim (before_protocol p) [
      | some answer ↦ answer
      | none ↦ elim p.protocol [
        | some proto ↦ if is_absent edited then (lit "protocol", []) else in_edited
        | none ↦ elim (behind_protocol p) [
          | some answer ↦ answer
          | none ↦
              if p.has_view_once
              then in_v
              else if p.has_view_once_v2
              then in_w
              else (lit "unknown", [])
        ]
      ]
    ]

-- `Media`, as `extractMediaInfo` fills it.
pub record Media : Type 0 where
  pub session_id : Str
  pub msg_id : Str
  pub media_type : Str
  pub mime_type : Str
  pub file_size : ℕ
  pub file_name : Str
  pub caption : Str
  pub wa_direct_path : Str
  pub wa_media_key : Str
  pub wa_file_sha256 : Str
  pub wa_file_enc_sha256 : Str
  pub wa_media_key_timestamp : ℕ
  pub width : ℕ
  pub height : ℕ
  pub duration : ℕ

-- The fields that all kinds fill.
unfoldable pub media_of : Str → Str → String → FilePart → Media
unfolding lit
media_of s m kind f = record {
  session_id = s;
  msg_id = m;
  media_type = lit kind;
  mime_type = f.mimetype;
  file_size = f.file_length;
  file_name = [];
  caption = [];
  wa_direct_path = f.direct_path;
  wa_media_key = f.media_key;
  wa_file_sha256 = f.file_sha256;
  wa_file_enc_sha256 = f.file_enc_sha256;
  wa_media_key_timestamp = f.media_key_timestamp;
  width = 0;
  height = 0;
  duration = 0;
}

unfoldable pub map_part {ℓ κ} : {A : Type ℓ} {B : Type κ} → (A → B) → Option A → Option B
map_part f none = none
map_part f (some a) = some (f a)

-- The media of the parts themselves.
unfoldable pub media_in : Str → Str → Parts → Option Media
unfolding first_of map_part media_of
media_in s m p = first_of (
    map_part
      (λ f. record (media_of s m "image" f) {
        caption = f.caption;
        width = f.width;
        height = f.height;
      })
      p.image
    ∷ map_part
        (λ f. record (media_of s m "video" f) {
          caption = f.caption;
          width = f.width;
          height = f.height;
          duration = f.seconds;
        })
        p.video
    ∷ map_part (λ f. record (media_of s m "audio" f) { duration = f.seconds }) p.audio
    ∷ map_part
        (λ f. record (media_of s m "document" f) { file_name = f.file_name; caption = f.caption })
        p.document
    ∷ map_part (λ f. record (media_of s m "sticker" f) { width = f.width; height = f.height })
        p.sticker
    ∷ [])

-- `extractMediaInfo`
unfoldable pub extract_media_info : Str → Str → WaMessage → Option Media
unfolding media_in
extract_media_info s m absent = none
extract_media_info s m (message p e v w) =
    let in_v = extract_media_info s m v in
    let in_w = extract_media_info s m w in
    elim (media_in s m p) [
      | some media ↦ some media
      | none ↦ if p.has_view_once then in_v else if p.has_view_once_v2 then in_w else none
    ]

-- `extractContextInfo`
unfoldable pub extract_context_info : WaMessage → Option ContextInfo
unfolding first_of map_part
extract_context_info absent = none
extract_context_info (message p e v w) =
    elim (first_of (
      map_part (λ t. t.context) p.extended_text
      ∷ map_part (λ f. f.context) p.image
      ∷ map_part (λ f. f.context) p.video
      ∷ map_part (λ f. f.context) p.audio
      ∷ map_part (λ f. f.context) p.document
      ∷ map_part (λ f. f.context) p.sticker
      ∷ map_part (λ c. c.context) p.contact
      ∷ map_part (λ c. c.context) p.contacts_array
      ∷ [])) [ none ↦ none | some context ↦ context ]

-- `extractQuotedID`
unfoldable pub extract_quoted_id : WaMessage → Str
unfolding extract_context_info
extract_quoted_id m = elim (extract_context_info m) [ none ↦ [] | some c ↦ c.stanza_id ]

-- `extractQuotedSender`
unfoldable pub extract_quoted_sender : WaMessage → Str
unfolding extract_context_info
extract_quoted_sender m = elim (extract_context_info m) [ none ↦ [] | some c ↦ c.participant ]
