-- ===== src/Command/ResetPassword/Effects.antt =====
-- The row of a user after a password reset.
use hexagonal_backend.Common.{◌≡◌, String, true, none, some, arith}
use hexagonal_backend.Common.Time.{Time}
use hexagonal_backend.Common.Result.{ok, is_ok}
use hexagonal_backend.Entity.Types.{User}
use hexagonal_backend.Entity.User.{
  validate_password, is_reset_token_expired, set_password, clear_password_reset_token,
}
use hexagonal_backend.Env.{Env}
use hexagonal_backend.World.{World}
use hexagonal_backend.Command.ResetPassword.{reset_user}

-- A reset that succeeds was given a strong password, spends the reset token, keeps who the user
-- is and the email, and invalidates the sessions at the time that it reports for that user.
pub reset_user_lem :
    (password : String) (u v : User) (id : String) (t : Time) (env : Env) (w : World)
    → (reset_user password u env w).0 ≡ ok (v, (id, t))
    → (is_ok (validate_password env password) ≡ true)
      × (v.password_reset_token_hash ≡ none)
      × (v.password_reset_expires_at ≡ none)
      × (v.sessions_invalidated_at ≡ some t)
      × (id ≡ u.id)
      × (v.id ≡ u.id)
      × (v.email ≡ u.email)
unfolding reset_user is_reset_token_expired set_password clear_password_reset_token
reset_user_lem password u v id t env w h = ground arith
