-- ===== src/Delivery/Examples.antt =====
-- The theorems on the webhooks and the queue at concrete runs.
use onwapp.Base.{
  ◌==◌, if◌then◌else◌, Str, str_eq, Dict, lookup, ℤ, ℕ, ◌≤◌, ◌≡◌, refl, ◌↔◌, ◌⊎◌, inl, inr, true,
  none, some, [], ◌∷◌, ◌++◌, arith,
}
use onwapp.Delivery.Webhook.{Webhook, Attempt, unanswered, answered, max_retries, send_webhook}
use onwapp.Delivery.Webhook.Sending.{posts, send_webhook_lem}
use onwapp.Delivery.Webhook.Payload.{PayloadLib, send_with_preserialized_json, send_with_chatwoot}
use onwapp.Delivery.Webhook.Payload.Keys.{takes, Leaves, payload_keys}
use onwapp.Delivery.Queue.{QueueMessage, QueueConfig, MessageHandler, process_message}
use onwapp.Delivery.Queue.Retries.{letters, deliveries, process_message_lem, deliveries_fail}

abbrev hook : Webhook
hook = record {
  id = [];
  session_id = [];
  url = b'u' ∷ [];
  events = [];
  enabled = true;
  secret = [];
}

-- No answer, then a server error, then a success.
abbrev flaky : ℕ → Attempt
flaky n = if n == 0 then unanswered else if n == 1 then answered 503 else answered 200

send_webhook_lem_example : posts (send_webhook flaky hook).0 ≤ max_retries
send_webhook_lem_example = (send_webhook_lem flaky hook).0

abbrev values : PayloadLib
values = record { Value = Str ⊎ ℤ; text = λ s. inl s; number = λ n. inr n; provider = none }

abbrev event_of : Dict (Str ⊎ ℤ)
event_of = (b'k' ∷ [], inl (b'v' ∷ [])) ∷ []

payload_keys_example :
    Leaves values
      (takes values hook (b'e' ∷ []))
      hook
      (b'n' ∷ [])
      (b'e' ∷ [])
      event_of
      (send_with_preserialized_json values
        (some (some hook))
        (b'1' ∷ [])
        (b'n' ∷ [])
        (b'e' ∷ [])
        (some (some event_of))
        none)
      (send_with_chatwoot values
        (some (some hook))
        (b'1' ∷ [])
        (b'n' ∷ [])
        (b'e' ∷ [])
        []
        (some event_of)
        none)
unfolding lookup
payload_keys_example =
    payload_keys values (b'1' ∷ []) (b'n' ∷ []) (b'e' ∷ []) [] event_of none hook (refl, tt)

abbrev config : QueueConfig
config = record { max_retries = 5; retry_delay = 10; subject = λ stream type. stream ++ type }

abbrev message : QueueMessage
message = record {
  id = b'1' ∷ [];
  type = b't' ∷ [];
  session_id = [];
  timestamp = 0;
  retries = 0;
  data_ = [];
}

abbrev failing : Dict MessageHandler
failing = (b't' ∷ [], λ m. some (b'x' ∷ [])) ∷ []

process_message_lem_example :
    (letters (
        process_message config failing true 0
          (record { decoded = some message; subject = []; num_delivered = 5 }))
      ≡ 1)
    ↔ ((h : MessageHandler) × (err : Str) × (lookup message.type failing ≡ some h)
        × (h message ≡ some err)
        × (5 ≤ 5)
        × (true ≡ true))
process_message_lem_example = (process_message_lem config failing true 0 message [] 5).1

deliveries_fail_example : (deliveries config (λ n. failing) (λ n. true) message [] 9 0).0 ≡ 5
unfolding lookup str_eq
deliveries_fail_example =
    (deliveries_fail config (λ n. failing) (λ n. true) message [] 9 0
      (λ k. ((λ m. some (b'x' ∷ [])), b'x' ∷ [], refl, refl)) (omega arith) (omega arith)).0
