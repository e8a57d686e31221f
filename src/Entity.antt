-- ===== src/Entity.antt =====
-- The domain of modules/auth/domain/entity: ids, scopes, clients, users, requests, codes, grants
-- and tokens. Ids are strings.
pub mod Types
pub mod Scope
pub mod Client
pub mod User
pub mod AuthRequest
pub mod AuthCode
pub mod Grant
pub mod Token
