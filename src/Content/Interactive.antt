-- ===== src/Content/Interactive.antt =====
-- Lists, templates, buttons and interactive messages in
-- internal/integrations/chatwoot/sync/content.go.
use onwapp.Base.{
  if◌then◌else◌, Str, is_empty, lit, str_eq, trim_space, Option, none, some, [], ◌++◌,
}
use onwapp.Content.Json.{
  JsonLib, Message, Json, Items, Fields, object, nil, cons, object_at, array_at, text_at, ◌>>=◌,
  web_message,
}

module _ (lib : JsonLib) where
  -- One row: its title, and its description if it has a title.
  unfoldable pub row_text : Json lib.F → Str
  row_text (object row) =
      let title = text_at (lit "title") row in
      let desc = text_at (lit "description") row in
      if is_empty title
      then []
      else lit "\n• " ++ title ++ (if is_empty desc then [] else lit " - " ++ desc)
  row_text _ = []

  -- The loop over the rows; `b` is the builder.
  unfoldable pub rows_loop : Str → Items lib.F → Str
  unfolding row_text
  rows_loop b nil = b
  rows_loop b (cons r rs) = rows_loop (b ++ row_text r) rs

  unfoldable pub section_title : Fields lib.F → Str
  section_title section =
      let title = text_at (lit "title") section in
      if is_empty title then [] else lit "\n\n*" ++ title ++ lit "*"

  -- One round of the loop over the sections.
  unfoldable pub section_step : Str → Json lib.F → Str
  unfolding rows_loop section_title
  section_step b (object section) =
      let titled = b ++ section_title section in
      elim (array_at (lit "rows") section) [ none ↦ titled | some rows ↦ rows_loop titled rows ]
  section_step b _ = b

  unfoldable pub sections_loop : Str → Items lib.F → Str
  unfolding section_step
  sections_loop b nil = b
  sections_loop b (cons s ss) = sections_loop (section_step b s) ss

  -- `extractListContent`
  unfoldable pub extract_list_content : Fields lib.F → Str
  unfolding sections_loop
  extract_list_content message = elim (object_at (lit "listMessage") message) [
    | none ↦ []
    | some list ↦
        let b = text_at (lit "description") list in
        elim (array_at (lit "sections") list) [
          | none ↦ trim_space b
          | some sections ↦ trim_space (sections_loop b sections)
        ]
  ]

  hydrated_text : Option (Fields lib.F) → Str
  hydrated_text none = []
  hydrated_text (some m) = text_at (lit "hydratedContentText") m

  -- `extractTemplateContent`
  unfoldable pub extract_template_content : Fields lib.F → Str
  unfolding hydrated_text
  extract_template_content message = elim (object_at (lit "templateMessage") message) [
    | none ↦ []
    | some template ↦
        let hydrated = hydrated_text (object_at (lit "hydratedTemplate") template) in
        if is_empty hydrated
        then hydrated_text
            (object_at (lit "Format") template >>= object_at (lit "HydratedFourRowTemplate"))
        else hydrated
  ]

  -- `extractButtonsContent`
  unfoldable pub extract_buttons_content : Fields lib.F → Str
  extract_buttons_content message = elim (object_at (lit "buttonsMessage") message) [
    | none ↦ []
    | some buttons ↦ text_at (lit "contentText") buttons
  ]

  -- `extractInteractiveMessageContent`
  unfoldable pub extract_interactive_message_content : Fields lib.F → Str
  extract_interactive_message_content message =
      elim (object_at (lit "interactiveMessage") message >>= object_at (lit "body")) [
        | none ↦ []
        | some body ↦ text_at (lit "text") body
      ]

  unfoldable pub by_type : Str → Fields lib.F → Str
  unfolding extract_list_content extract_template_content extract_buttons_content
      extract_interactive_message_content
  by_type type message =
      if str_eq type (lit "list")
      then extract_list_content message
      else if str_eq type (lit "template")
      then extract_template_content message
      else if str_eq type (lit "buttons")
      then extract_buttons_content message
      else if str_eq type (lit "interactive")
      then extract_interactive_message_content message
      else []

  -- `ExtractInteractiveContent`
  unfoldable pub extract_interactive_content : Message → Str
  unfolding by_type
  extract_interactive_content msg =
      if is_empty msg.raw_event then [] else elim (lib.unmarshal msg.raw_event >>= web_message) [
        | none ↦ []
        | some message ↦ by_type msg.type message
      ]
