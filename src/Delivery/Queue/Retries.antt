-- ===== src/Delivery/Queue/Retries.antt =====
-- How often internal/queue/consumer.go has a message handled.
use onwapp.Base.{
  if◌then◌else◌, Bool-cases, Option-cases, Str, Dict, lookup, ℕ, zero, suc, ◌+◌, ◌≤◌, ◌<◌, ◌≡◌, ap,
  ◌↔◌, ◌⊎◌, inl, inr, Bool, true, false, none, some, List, [], ◌∷◌, ◌++◌, arith, ℕ_discrete,
}
use onwapp.Delivery.Queue.{
  QueueMessage, Signal, ack, publish, QueueConfig, MessageHandler, publish_to_dlq, process_message,
}

-- Whether signals settle a message, so that it is not delivered again.
abbrev pub settles : List Signal → Bool
settles [] = false
settles (ack ∷ ss) = true
settles (s ∷ ss) = settles ss

-- The number of dead letters among signals.
abbrev pub letters : List Signal → ℕ
letters [] = 0
letters (publish subject letter ∷ ss) = 1 + letters ss
letters (s ∷ ss) = letters ss

-- A message that decodes, delivered again and again until it is settled: `handlers n` are those
-- registered at the delivery of number `n`, and `oks n` says whether a dead letter can be published
-- then. The result is the number of the last delivery that was made, of the `fuel` at most, and what
-- the consumer asked for in all of them.
unfoldable pub deliveries :
    QueueConfig
    → (ℕ → Dict MessageHandler)
    → (ℕ → Bool)
    → QueueMessage
    → Str
    → ℕ
    → ℕ
    → ℕ × List Signal
unfolding process_message
deliveries cfg handlers oks m subject zero n = (n, [])
deliveries cfg handlers oks m subject (suc fuel) n =
    let now =
      process_message cfg (handlers (n + 1)) (oks (n + 1)) 0
        (record { decoded = some m; subject = subject; num_delivered = n + 1 }) in
    let rest = deliveries cfg handlers oks m subject fuel (n + 1) in
    if settles now then (n + 1, now) else (rest.0, now ++ rest.1)

-- A message that decodes is settled exactly if no handler is registered for its type, the handler
-- succeeds, or it was delivered `MaxRetries` times; it becomes a dead letter exactly if its
-- handler fails in a delivery from that number on and the letter can be published. Where it cannot,
-- the message is settled all the same.
pub process_message_lem :
    (cfg : QueueConfig) (handlers : Dict MessageHandler) (ok : Bool) (now : ℕ) (m : QueueMessage)
    (subject : Str) (n : ℕ)
    → let out =
        process_message cfg handlers ok now
          (record { decoded = some m; subject = subject; num_delivered = n }) in
      ((settles out ≡ true) ↔ (
        (lookup m.type handlers ≡ none)
        ⊎ ((h : MessageHandler) × (lookup m.type handlers ≡ some h)
            × ((h m ≡ none) ⊎ (cfg.max_retries ≤ n)))))
      × ((letters out ≡ 1) ↔ (
          (h : MessageHandler) × (err : Str) × (lookup m.type handlers ≡ some h)
          × (h m ≡ some err)
          × (cfg.max_retries ≤ n)
          × (ok ≡ true)))
unfolding process_message publish_to_dlq
process_message_lem cfg handlers ok now m subject n = elim (Option-cases (lookup m.type handlers)) [
  | inl e ↦ ground arith
  | inr (h, e) ↦ elim (Option-cases (h m)) [
    | inl f ↦ ground arith
    | inr (err, f) ↦ elim (Bool-cases ok) [ inl g ↦ ground arith | inr g ↦ ground arith ]
  ]
]

-- A message that was delivered fewer than `MaxRetries` times, and whose type has a handler that
-- fails at every delivery, is delivered up to the delivery of that number, if so many deliveries are
-- made, and never again: it is settled there, and becomes one dead letter if that can be published
-- at that delivery, and none if it cannot.
pub deliveries_fail :
    (cfg : QueueConfig) (handlers : ℕ → Dict MessageHandler) (oks : ℕ → Bool) (m : QueueMessage)
    (subject : Str) (fuel n : ℕ)
    → ((k : ℕ)
        → (h : MessageHandler) × (err : Str) × (lookup m.type (handlers k) ≡ some h)
          × (h m ≡ some err))
    → n < cfg.max_retries
    → cfg.max_retries ≤ n + fuel
    → ((deliveries cfg handlers oks m subject fuel n).0 ≡ cfg.max_retries)
      × (settles (deliveries cfg handlers oks m subject fuel n).1 ≡ true)
      × (letters (deliveries cfg handlers oks m subject fuel n).1
          ≡ (if oks cfg.max_retries then 1 else 0))
unfolding deliveries process_message publish_to_dlq
deliveries_fail cfg handlers oks m subject zero n fails lo hi = absurd (omega arith)
deliveries_fail cfg handlers oks m subject (suc fuel) n fails lo hi =
    let (h, err, found, failed) = fails (n + 1) in
    elim (ℕ_discrete (n + 1) cfg.max_retries) [
      | yes last ↦ ground (arith, ap oks last)
      | no more ↦ ground (arith, deliveries_fail cfg handlers oks m subject fuel (n + 1) fails)
    ]
