-- ===== src/Tests.antt =====
-- The theorems at concrete inputs.
pub mod Fixtures
pub mod Tokens
pub mod Accounts
pub mod Requests
pub mod Codec
pub mod Stored
pub mod Transport
pub mod Mail
pub mod Start
