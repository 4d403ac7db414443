-- ===== src/Cache.antt =====
-- The in-memory caches: internal/cache/cache.go and the two-key caches of
-- internal/integrations/chatwoot/service/cache.go.
mod Examples
pub mod Ttl
pub mod Dedupe
