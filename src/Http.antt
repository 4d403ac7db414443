-- ===== src/Http.antt =====
-- The HTTP layer: internal/api/middleware, the query parameters of internal/api/handler, and the URLs
-- of internal/validator.
mod Examples
pub mod Auth
pub mod Validator
pub mod Headers
pub mod RateLimit
pub mod Pagination
