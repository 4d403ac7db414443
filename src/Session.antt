-- ===== src/Session.antt =====
-- internal/model/session.go and internal/service/session.go: the registry of WhatsApp sessions.
-- The WhatsApp client, its device store and the database are the parameter `Wpp`.
pub mod Wpp
pub mod Registry
pub mod Operations
