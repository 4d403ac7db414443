-- ===== src/Chatwoot.antt =====
-- Messages between Chatwoot and WhatsApp: internal/integrations/chatwoot/service.
mod Examples
pub mod Outgoing
pub mod Messages
