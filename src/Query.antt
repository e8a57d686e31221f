-- ===== src/Query.antt =====
-- modules/auth/application/query: the authorize endpoint, the sign-in page, the password grant,
-- introspection and the profile.
pub mod Authorize
pub mod GetSignIn
pub mod GetToken
pub mod Introspect
pub mod GetProfile
