-- ===== src/Lib.antt =====
-- OnWapp: a server that keeps WhatsApp sessions behind an HTTP API, mirrors their messages into
-- Chatwoot, and sends their events to webhooks and through a message queue.
--
-- The parts and their files:
--   Session   internal/service/session.go and internal/model/session.go. `Registry` is the state of
--             `SessionService`: both maps hold pointers to one object, so it has a store `heap` by
--             addresses. `create`, `remove` (the method Delete), `connect`, `disconnect`, `logout`,
--             `restart`, `load_from_database`, `reconnect_session` and `start_client_with_qr` are the
--             methods and goroutines. go.mau.fi/whatsmeow, its device container and the session
--             table are the argument `Wpp`: operations on an outside world of which nothing is
--             assumed. `Step` and `Reach` are any sequence of methods, goroutines and outside events.
--   Http      internal/api/middleware: the API key (`auth`, `auth_check`) and the session guard
--             behind it (`session_auth`), CORS and the security headers, the rate limiter; and
--             internal/api/handler/pagination.go; and the URLs of internal/validator (`Validator`).
--   Content   internal/integrations/chatwoot/sync/content.go: the text that a stored message is shown
--             with, and the message that it quotes. Decoded JSON is a data type that the code's type
--             assertions read; decoding itself and float64 are the argument `JsonLib`.
--   Ticket    internal/api/handler/ticket.go over the statements of internal/db/repository/ticket.go:
--             the table is a map from IDs to rows, and `Faults` says whether the database fails.
--   Cache     internal/cache/cache.go (`Ttl`) and the caches against double processing of
--             internal/integrations/chatwoot/service/cache.go (`Dedupe`).
--   Delivery  internal/integrations/webhook/service.go (`Webhook`) and internal/queue/consumer.go with
--             its messages and dead letters (`Queue`).
--   Chatwoot  internal/integrations/chatwoot/service/webhook.go: which messages of Chatwoot go to
--             WhatsApp, and with what text (`Outgoing`); deletions and read receipts of messages that
--             Chatwoot has, from messages.go and service.go beside it (`Messages`).
--   Event     internal/service/event: `handle_event` is HandleEvent, and a handler is the list of the
--             calls that it makes, in order (`Call`), from what the services answer (`Env`). The
--             calls are then read as changes: of the session and its row (`perform`), of the
--             message table (`stored`) and as webhooks (`names`). A goroutine is one call that starts
--             it; the keepOnline goroutine and the privacy goroutine are functions of their own.
--   Store     internal/db/repository/message.go and chat.go: the statements on the tables of messages
--             (`Messages`) and of chats (`Chats`), as functions on a list of rows.
--   Media     internal/service/media.go over the statements of internal/db/repository/media.go: the
--             downloads, their retries, and the loop after a history synchronisation; the client and
--             the object storage are what `Services` answers.
--   Phone     internal/integrations/chatwoot/util/phone.go and internal/util/jid.go.
--   Base      the shared ground: Boolean tests, lists over the native numbers, Go strings as lists of
--             bytes with the functions of package strings that are called, Go maps as association
--             lists, and signed integers.
--
-- Conventions. A method is a function from a state to a state and a result; an error is a value
-- of the result type. A method is one step, also where it gives up its lock before it ends, and
-- goroutines are steps of their own: interleavings within a method are not modelled. Times are
-- numbers of a monotone clock, and the caller passes the time. A loop over a Go map whose order
-- matters gets the order as an argument. A value that Go may leave nil is an Option, and where
-- the code would dereference nil the result is `panicked`. A handler's `requests` are the bodies
-- after binding: `none` is a body that does not bind. Sums of type int are left on the natural
-- numbers where the code bounds them, and wrap around modulo 2 ^ 64 in `pagination`, whose limit
-- has no bound.
--
-- Bounds. Every loop of the models recurs on the list, the map or the number of attempts that the
-- source's loop runs over. The one fuel is that of `deliveries`, the redeliveries of a message by
-- the server; the theorem on it asks for `MaxRetries` deliveries at most. The loop over the batches
-- of media is bounded by its timeout in the source too; the theorem on its end says how many batches
-- are enough.
--
-- Not modelled: logging, metrics and the texts of responses; SQL beside the statements on tickets,
-- messages, chats and media, and the order of query results; the HTTP clients of Chatwoot and the object
-- storage; HMAC signatures; generated documentation and the administration pages.
pub mod Base
pub mod Cache
pub mod Chatwoot
pub mod Content
pub mod Delivery
pub mod Event
pub mod Http
pub mod Media
pub mod Phone
pub mod Session
pub mod Store
pub mod Ticket
