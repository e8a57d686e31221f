-- ===== src/Define.antt =====
-- modules/auth/application/define: expiries, cache keys and answers.
pub mod Expiry
pub mod Keys
pub mod Response
