-- ===== src/Command.antt =====
-- modules/auth/application/command: the use cases that change the state. Logging is left out.
pub mod CreateAuthCode
pub mod ExchangeCode
pub mod RefreshToken
pub mod RevokeToken
pub mod Logout
pub mod CreateUser
pub mod UpdateProfile
pub mod ResetPassword
pub mod ForgotPassword
