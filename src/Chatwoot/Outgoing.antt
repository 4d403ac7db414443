-- ===== src/Chatwoot/Outgoing.antt =====
-- `GetWebhookDataForSending` of internal/integrations/chatwoot/service/webhook.go, with
-- `ConvertMarkdown` of service.go beside it.
pub mod Echoes
pub mod Markdown
use onwapp.Base.{
  ◌==◌, if◌then◌else◌, Str, is_empty, lit, str_eq, has_prefix, replace_all, ℤ, pos, negsuc, ◌*◌,
  Bool, false, not, ◌&&◌, ◌||◌, Option, none, some, List, [], ◌∷◌, ◌++◌,
}
use onwapp.Phone.{jid_to_whatsapp, without_plus}

-- `core.Message`, `core.Contact` and `core.Sender`, the fields that are read.
pub record ConversationMessage : Type 0 where
  pub id : ℤ
  pub source_id : Str

pub record Contact : Type 0 where
  pub identifier : Str
  pub phone_number : Str

pub record Sender : Type 0 where
  pub name : Str
  pub available_name : Str

-- `WebhookConversation` and `ConversationMeta`: the pointers on the way to the contact are one option.
pub record WebhookConversation : Type 0 where
  pub messages : List ConversationMessage
  pub meta_sender : Option Contact

-- `WebhookPayload`; `A` stands for `core.Attachment`.
pub record WebhookPayload (A : Type 0) : Type 0 where
  pub id : ℤ
  pub content : Str
  pub message_type : Str
  pub is_private : Bool
  pub source_id : Str
  pub conversation : Option WebhookConversation
  pub sender : Option Sender
  pub attachments : List A

-- `core.Config`, the fields that are read.
pub record Config : Type 0 where
  pub sign_agent : Bool
  pub sign_separator : Str

-- The results: `ErrNotEnabled`, an empty result without an error, the error on missing metadata, and
-- what is to be sent.
pub data Outgoing (A : Type 0) : Type 0 where
  not_enabled ignored missing_metadata : Outgoing A
  sending : Str → Str → List A → Outgoing A

-- `ConvertMarkdown`
unfoldable pub convert_markdown : Str → Str
unfolding replace_all lit
convert_markdown content =
    let marked = replace_all content (lit "**") (lit "§BOLD§") in
    let italic = replace_all marked (lit "*") (lit "_") in
    let bold = replace_all italic (lit "§BOLD§") (lit "*") in replace_all bold (lit "~~") (lit "~")

-- `==` on numbers of type int
abbrev pub eq_ℤ : ℤ → ℤ → Bool
eq_ℤ (pos a) (pos b) = a == b
eq_ℤ (negsuc a) (negsuc b) = a == b
eq_ℤ _ _ = false

-- The loop over the messages of the conversation.
unfoldable pub has_imported : ℤ → List ConversationMessage → Bool
unfolding has_prefix lit
has_imported id [] = false
has_imported id (m ∷ ms) =
    (has_prefix m.source_id (lit "WAID:") && eq_ℤ m.id id) || has_imported id ms

-- `*name:*`, the separator and the content, if the agent has a name.
unfoldable pub signed : Str → Sender → Str → Str
unfolding replace_all lit
signed separator sender content =
    let name = if is_empty sender.available_name then sender.name else sender.available_name in
    let delimiter = if is_empty separator then b'\n' ∷ [] else separator in
    if is_empty name
    then content
    else lit "*" ++ name ++ lit ":*" ++ replace_all delimiter (lit "\\n") (b'\n' ∷ []) ++ content

unfoldable pub sign : Config → Option Sender → Str → Str
unfolding signed
sign cfg none content = content
sign cfg (some sender) content =
    if cfg.sign_agent && not (is_empty content)
    then signed cfg.sign_separator sender content
    else content

-- The JID of the chat.
unfoldable pub chat_jid : Contact → Str
unfolding jid_to_whatsapp without_plus
chat_jid contact =
    if is_empty contact.identifier
    then jid_to_whatsapp (without_plus contact.phone_number)
    else contact.identifier

module _ {A : Type 0} where
  -- The checks for messages that came from WhatsApp.
  unfoldable pub is_imported : WebhookPayload A → Bool
  unfolding has_imported has_prefix lit
  is_imported p =
      (not (is_empty p.source_id) && has_prefix p.source_id (lit "WAID:"))
      || (elim p.conversation [ none ↦ false | some c ↦ has_imported p.id c.messages ])

  unfoldable pub is_outgoing : WebhookPayload A → Bool
  unfolding str_eq lit
  is_outgoing p = str_eq p.message_type (lit "outgoing") || str_eq p.message_type (lit "1")

  -- `GetWebhookDataForSending`: `cfg` is what `GetEnabledBySessionID` finds, `none` on an error too.
  unfoldable pub get_webhook_data_for_sending : Option Config → WebhookPayload A → Outgoing A
  unfolding is_imported is_outgoing chat_jid sign convert_markdown
  get_webhook_data_for_sending none p = not_enabled
  get_webhook_data_for_sending (some cfg) p =
      if not (is_outgoing p) || p.is_private
      then ignored
      else if is_imported p
      then ignored
      else elim p.conversation [
        | none ↦ missing_metadata
        | some c ↦ elim c.meta_sender [
          | none ↦ missing_metadata
          | some contact ↦
              sending (chat_jid contact) (sign cfg p.sender (convert_markdown p.content))
                p.attachments
        ]
      ]
