-- ===== src/Middleware.antt =====
-- handler/web/middleware and the revocation checker of modules/auth/adapter/in.
pub mod Revoked
pub mod Bearer
pub mod RateLimit
