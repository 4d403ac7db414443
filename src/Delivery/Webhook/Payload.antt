-- ===== src/Delivery/Webhook/Payload.antt =====
-- The payloads of internal/integrations/webhook/service.go: a JSON object is a map, and its values
-- are those of the environment, made from texts and numbers.
pub mod Lookups
pub mod Keys
use onwapp.Base.{
  ltb, if◌then◌else◌, Str, is_empty, lit, Dict, insert, ℤ, pos_part, Option, none, some, [], ◌∷◌,
}
use onwapp.Delivery.Webhook.{Webhook, should_send_event}

-- `ChatwootInfo`
pub record ChatwootInfo : Type 0 where
  pub account : ℤ
  pub inbox_id : ℤ
  pub conversation_id : ℤ
  pub message_id : ℤ

-- The values of a JSON object, and `GetChatwootInfo` and `GetChatwootInfoForMessage` of the provider
-- that may be set.
pub record PayloadLib : Type 1 where
  pub Value : Type 0
  pub text : Str → Value
  pub number : ℤ → Value
  pub provider : Option ((Str → Option ChatwootInfo) × (Str → Str → Option ChatwootInfo))

-- What becomes of an event: nothing is sent, the write to a nil map panics, or a payload goes to
-- `sendWebhook` for a webhook.
pub data Sent (V : Type 0) : Type 0 where
  skipped panicked : Sent V
  sends : Webhook → Dict V → Sent V

module _ (lib : PayloadLib) where
  -- `if n > 0 { payload[key] = n }`
  unfoldable pub put_number : Str → ℤ → Dict lib.Value → Dict lib.Value
  unfolding insert
  put_number key n m = if ltb 0 (pos_part n) then insert key (lib.number n) m else m

  unfoldable pub put_account : ChatwootInfo → Dict lib.Value → Dict lib.Value
  unfolding put_number lit
  put_account info m =
      put_number (lit "chatwootInboxId") info.inbox_id
        (put_number (lit "chatwootAccount") info.account m)

  unfoldable pub put_info : ChatwootInfo → Dict lib.Value → Dict lib.Value
  unfolding put_account put_number lit
  put_info info m =
      put_number (lit "chatwootMessageId") info.message_id
        (put_number (lit "chatwootConversationId") info.conversation_id (put_account info m))

  -- The system's own keys: both IDs are written under one key.
  unfoldable pub put_event : Str → Str → Str → Dict lib.Value → Dict lib.Value
  unfolding insert lit
  put_event session_id session_name event m =
      insert (lit "sessionId") (lib.text session_name)
        (insert (lit "sessionId") (lib.text session_id) (insert (lit "event") (lib.text event) m))

  -- `for k, v := range eventMap { payload[k] = v }`
  unfoldable pub put_all : Dict lib.Value → Dict lib.Value → Dict lib.Value
  unfolding insert
  put_all [] m = m
  put_all ((k, v) ∷ kvs) m = put_all kvs (insert k v m)

  -- What `repo.GetEnabledBySession` found: an error, nothing, or a webhook.
  unfoldable pub accepts : Option (Option Webhook) → Str → Option Webhook
  unfolding should_send_event
  accepts none event = none
  accepts (some none) event = none
  accepts (some (some wh)) event =
      if is_empty wh.url then none else if should_send_event wh.events event then some wh else none

  -- The Chatwoot information that is given, or what the provider knows of the message or session.
  unfoldable pub inform : Option ChatwootInfo → Str → Str → Dict lib.Value → Dict lib.Value
  unfolding put_info put_account
  inform (some i) session_id msg_id m = put_info i m
  inform none session_id msg_id m = elim lib.provider [
    | none ↦ m
    | some (by_session, by_message) ↦
        if is_empty msg_id
        then elim (by_session session_id) [ none ↦ m | some i ↦ put_account i m ]
        else elim (by_message session_id msg_id) [ none ↦ m | some i ↦ put_info i m ]
  ]

  -- `SendWithPreserializedJSON`: `json` is what `json.Unmarshal` makes of the event, `none` on an
  -- error or without a text, and `some none` for the JSON null, which leaves a nil map.
  unfoldable pub send_with_preserialized_json :
      Option (Option Webhook)
      → Str
      → Str
      → Str
      → Option (Option (Dict lib.Value))
      → Option ChatwootInfo
      → Sent lib.Value
  unfolding accepts put_event put_info
  send_with_preserialized_json found session_id session_name event json info =
      elim (accepts found event) [
        | none ↦ skipped
        | some wh ↦
            elim (elim json as (λ x. Option (Dict lib.Value)) [ none ↦ some [] | some m ↦ m ]) [
              | none ↦ panicked
              | some start ↦
                  let m = put_event session_id session_name event start in
                  sends wh (elim info [ none ↦ m | some i ↦ put_info i m ])
            ]
      ]

  -- `SendWithChatwoot`: `msg_id` is what `extractMsgIDFromEvent` finds in the event, and `raw` what
  -- the event is as a JSON object, if it is one.
  unfoldable pub send_with_chatwoot :
      Option (Option Webhook)
      → Str
      → Str
      → Str
      → Str
      → Option (Dict lib.Value)
      → Option ChatwootInfo
      → Sent lib.Value
  unfolding accepts put_event inform put_all
  send_with_chatwoot found session_id session_name event msg_id raw info =
      elim (accepts found event) [
        | none ↦ skipped
        | some wh ↦
            let m = put_event session_id session_name event [] in
            let informed = inform info session_id msg_id m in
            sends wh (elim raw [ none ↦ informed | some kvs ↦ put_all kvs informed ])
      ]
