-- ===== src/Store.antt =====
-- The tables of internal/db/repository, as functions on rows.
pub mod Messages
pub mod Chats
mod Examples
