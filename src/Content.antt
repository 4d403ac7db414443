-- ===== src/Content.antt =====
-- internal/integrations/chatwoot/sync/content.go: the text that a stored message is shown with.
mod Examples
pub mod Json
pub mod Cards
pub mod Replies
pub mod Interactive
pub mod Quoted
pub mod Format
pub mod Labels
pub mod Reference
