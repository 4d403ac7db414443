-- ===== src/Content/Format.antt =====
-- `GetMessageContent` of internal/integrations/chatwoot/sync/content.go.
use onwapp.Base.{if◌then◌else◌, Str, is_empty, lit, str_eq, one_of, Bool, not, ◌&&◌, [], ◌∷◌, ◌++◌}
use onwapp.Content.Json.{JsonLib, Message}
use onwapp.Content.Cards.{
  extract_location_content, extract_contact_content, extract_contacts_array_content,
}
use onwapp.Content.Replies.{extract_button_reply_content}
use onwapp.Content.Interactive.{extract_interactive_content}

-- `formatMediaContent`
unfoldable pub format_media_content : Str → Str → Str
format_media_content label caption =
    if is_empty caption
    then lit "_[" ++ label ++ lit "]_"
    else lit "_[" ++ label ++ lit "]_\n" ++ caption

-- `isInteractiveType`
unfoldable pub is_interactive_type : Str → Bool
is_interactive_type type = one_of type (
    lit "list"
    ∷ lit "template"
    ∷ lit "buttons"
    ∷ lit "interactive"
    ∷ lit "button_reply"
    ∷ lit "button_response"
    ∷ [])

module _ (lib : JsonLib) where
  -- `formatMessageContent`
  unfoldable pub format_message_content : Message → Str
  format_message_content msg =
      if str_eq msg.type (lit "image")
      then format_media_content (lit "Imagem") msg.content
      else if str_eq msg.type (lit "video")
      then format_media_content (lit "Vídeo") msg.content
      else if str_eq msg.type (lit "audio")
      then format_media_content (lit "Áudio") msg.content
      else if str_eq msg.type (lit "document")
      then if is_empty msg.content
        then lit "_[Documento]_"
        else lit "_[Documento: " ++ msg.content ++ lit "]_"
      else if str_eq msg.type (lit "sticker")
      then lit "_[🎨 Sticker]_"
      else if str_eq msg.type (lit "location")
      then extract_location_content lib msg
      else if str_eq msg.type (lit "contact")
      then extract_contact_content lib msg
      else if str_eq msg.type (lit "contacts")
      then extract_contacts_array_content lib msg
      else if one_of msg.type (lit "button_reply" ∷ lit "button_response" ∷ [])
      then extract_button_reply_content lib msg
      else if str_eq msg.type (lit "system")
      then []
      else msg.content

  -- `GetMessageContent`
  unfoldable pub get_message_content : Message → Str
  get_message_content msg =
      let interactive = extract_interactive_content lib msg in
      if is_empty msg.content
        && not (is_empty msg.raw_event)
        && is_interactive_type msg.type
        && not (is_empty interactive)
      then interactive
      else format_message_content msg
