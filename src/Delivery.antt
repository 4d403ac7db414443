-- ===== src/Delivery.antt =====
-- What leaves the program with retries: webhooks and the message queue.
mod Examples
pub mod Webhook
pub mod Queue
