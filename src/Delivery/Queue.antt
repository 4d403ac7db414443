-- ===== src/Delivery/Queue.antt =====
-- The consumer of internal/queue/consumer.go, with the messages of internal/queue/messages.go and the
-- dead letters of internal/queue/producer.go. NATS, JSON and the handlers are the environment's.
pub mod Retries
use onwapp.Base.{
  leb, if◌then◌else◌, Str, lit, Dict, lookup, insert, ℕ, Bool, Option, none, some, List, [], ◌∷◌,
  ◌++◌,
}

-- `QueueMessage`; its type is the text of the source's constants.
pub record QueueMessage : Type 0 where
  pub id : Str
  pub type : Str
  pub session_id : Str
  pub timestamp : ℕ
  pub retries : ℕ
  pub data_ : Str

-- `DLQMessage`
pub record DlqMessage : Type 0 where
  pub original_subject : Str
  pub original_message : QueueMessage
  pub failure_reason : Str
  pub failed_at : ℕ

-- What the consumer asks of NATS, in order.
pub data Signal : Type 0 where
  ack : Signal
  nak : Signal
  nak_with_delay : ℕ → Signal
  publish : Str → DlqMessage → Signal

-- `MaxRetries` and `RetryDelay` of the configuration, and `Client.Subject`.
pub record QueueConfig : Type 0 where
  pub max_retries : ℕ
  pub retry_delay : ℕ
  pub subject : Str → Str → Str

-- A delivery: the message that its data decodes to, if it does, its subject and `NumDelivered`.
pub record Delivered : Type 0 where
  pub decoded : Option QueueMessage
  pub subject : Str
  pub num_delivered : ℕ

-- `MessageHandler`: an error is its text.
abbrev pub MessageHandler : Type 0
MessageHandler = QueueMessage → Option Str

-- `PublishToDLQ`; `ok` is false where JSON or NATS fails, and then nothing is published.
unfoldable pub publish_to_dlq : QueueConfig → Bool → ℕ → Str → QueueMessage → Str → List Signal
unfolding lit
publish_to_dlq cfg ok now original_subject msg reason =
    if ok
    then publish (cfg.subject (lit "DLQ") msg.type) (record {
      original_subject = original_subject;
      original_message = msg;
      failure_reason = reason;
      failed_at = now;
    })
      ∷ []
    else []

-- `RegisterHandler`
unfoldable pub register_handler : Str → MessageHandler → Dict MessageHandler → Dict MessageHandler
unfolding insert
register_handler type handler handlers = insert type handler handlers

-- `processMessage`; an error of `PublishToDLQ`, where `ok` is false, is only logged.
unfoldable pub process_message :
    QueueConfig → Dict MessageHandler → Bool → ℕ → Delivered → List Signal
unfolding lookup publish_to_dlq
process_message cfg handlers ok now msg = elim msg.decoded [
  | none ↦ nak ∷ []
  | some m ↦ elim (lookup m.type handlers) [
    | none ↦ ack ∷ []
    | some handler ↦ elim (handler m) [
      | none ↦ ack ∷ []
      | some err ↦
          if leb cfg.max_retries msg.num_delivered
          then publish_to_dlq cfg ok now msg.subject m err ++ (ack ∷ [])
          else nak_with_delay cfg.retry_delay ∷ []
    ]
  ]
]
