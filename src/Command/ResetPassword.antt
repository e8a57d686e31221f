-- ===== src/Command/ResetPassword.antt =====
-- modules/auth/application/command/reset_password.go
pub mod Effects
use hexagonal_backend.Common.{String, Option, none, some, if◌then◌else◌}
use hexagonal_backend.Common.Time.{Time}
use hexagonal_backend.Common.Result.{Result, ok, err}
use hexagonal_backend.Entity.Token.{hash}
use hexagonal_backend.Entity.Types.{User}
use hexagonal_backend.Entity.User.{is_reset_token_expired, set_password, clear_password_reset_token}
use hexagonal_backend.Errors.{
  Error, panic, is_not_found, is_error_struct, err_weak_password, err_reset_password_failed,
  err_password_reset_token_expired, err_password_reset_token_not_found,
}
use hexagonal_backend.Service.Revocation.{mark_sessions_invalidated}
use hexagonal_backend.World.Monad.{M, pure, raise, raise_if, attempt, best_effort, ◌>>=◌, ◌>>◌, now}
use hexagonal_backend.World.Stores.{
  update_user_by_reset_hash, revoke_all_for_user, do_in_transaction,
}

pub record Command : Type 0 where
  pub token : String
  pub password : String

abbrev weak : Error → Error
weak panic = panic
weak e = err_weak_password e

-- The update of the user row, with the captured userID and invalidatedAt.
unfoldable pub reset_user : String → User → M (User × (String × Time))
reset_user password u = do
  expired ← is_reset_token_expired u
  raise_if expired err_password_reset_token_expired
  changed ← attempt (set_password u password)
  elim changed [
    | err e ↦ raise (weak e)
    | ok v ↦ do
      t ← now
      cleared ←
          clear_password_reset_token (record v { sessions_invalidated_at = some t; updated_at = t })
      pure (cleared, (u.id, t))
  ]

abbrev reset_error : Error → Error
reset_error panic = panic
reset_error e =
    if is_not_found e
    then err_password_reset_token_not_found
    else if is_error_struct e
    then e
    else err_reset_password_failed

-- Execute
unfoldable pub execute : Command → M (Unit {0})
execute c = do
  hashed ← hash c.token
  done ← attempt (do_in_transaction (update_user_by_reset_hash hashed (reset_user c.password)))
  elim done [
    | err e ↦ raise (reset_error e)
    | ok (user_id, invalidated_at) ↦ do
      best_effort (revoke_all_for_user user_id)
      best_effort (mark_sessions_invalidated user_id invalidated_at)
  ]
