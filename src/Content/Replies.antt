-- ===== src/Content/Replies.antt =====
-- Button replies in internal/integrations/chatwoot/sync/content.go.
use onwapp.Base.{if◌then◌else◌, Str, is_empty, lit, not, Option, none, some, [], ◌++◌}
use onwapp.Content.Json.{
  JsonLib, Message, Fields, object_at, text_at, ◌>>=◌, history_message, live_message,
}

unfoldable pub msg_response : Str
msg_response = lit "_[🔘 Resposta]_"

module _ (lib : JsonLib) where
  -- Two assignments to `selectedText`: the second wins where its objects are there, also with "".
  unfoldable pub selected_in : Fields lib.F → Str
  selected_in message =
      let template : Str = elim (object_at (lit "templateButtonReplyMessage") message) [
        | none ↦ []
        | some reply ↦ text_at (lit "selectedDisplayText") reply
      ] in
      elim (object_at (lit "buttonsResponseMessage") message >>= object_at (lit "Response")) [
        | none ↦ template
        | some response ↦ text_at (lit "SelectedDisplayText") response
      ]

  unfoldable pub selected_of : Option (Fields lib.F) → Str
  unfolding selected_in
  selected_of none = []
  selected_of (some message) = selected_in message

  unfoldable pub selected_text : Fields lib.F → Str
  unfolding selected_of
  selected_text raw =
      let live = selected_of (live_message raw) in
      if is_empty live then selected_of (history_message raw) else live

  unfoldable pub response_text : Str → Str
  response_text selected =
      if is_empty selected then msg_response else msg_response ++ lit " " ++ selected

  -- `extractButtonReplyContent`
  unfoldable pub extract_button_reply_content : Message → Str
  unfolding selected_text response_text
  extract_button_reply_content msg =
      if not (is_empty msg.content)
      then msg_response ++ lit " " ++ msg.content
      else if is_empty msg.raw_event
      then msg_response
      else elim (lib.unmarshal msg.raw_event) [
        | none ↦ msg_response
        | some raw ↦ response_text (selected_text raw)
      ]
