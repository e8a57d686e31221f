-- ===== src/Service.antt =====
-- modules/auth/application/service: client authentication, revocation markers, token issuance, and
-- the JWT service behind it.
pub mod Authenticator
pub mod Revocation
pub mod Jwt
pub mod Issuance
