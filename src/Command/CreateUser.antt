-- ===== src/Command/CreateUser.antt =====
-- modules/auth/application/command/create_user.go
pub mod UniqueEmails
use hexagonal_backend.Common.{String, Bool, false, if◌then◌else◌}
use hexagonal_backend.Common.Result.{Result, ok, err}
use hexagonal_backend.Define.Response.{CreateUserResponse, created_user}
use hexagonal_backend.Entity.Types.{User}
use hexagonal_backend.Entity.User.{new_user}
use hexagonal_backend.Errors.{
  Error, panic, new_err, invalid_arguments, is_conflict, err_email_duplicated, err_create_user,
}
use hexagonal_backend.World.Monad.{M, pure, raise, attempt, ◌>>=◌}
use hexagonal_backend.World.Stores.{create_user_row}

pub record Command : Type 0 where
  pub username : String
  pub nickname : String
  pub email : String
  pub password : String

-- A panic is not an error that NewUser returns: it goes through.
abbrev invalid_user : Error → Error
invalid_user panic = panic
invalid_user e = new_err invalid_arguments e

store_user : User → M CreateUserResponse
store_user user = do
  created ← attempt (create_user_row user)
  elim created [
    | ok _ ↦ pure (created_user user)
    | err e ↦ raise (if is_conflict e then err_email_duplicated else err_create_user)
  ]

-- Execute
unfoldable pub execute : Command → M CreateUserResponse
unfolding store_user
execute c = do
  made ← attempt (
      new_user (record {
        tenant_id = "";
        username = c.username;
        nickname = c.nickname;
        password = c.password;
        email = c.email;
        email_verified = false;
      }))
  elim made [ err e ↦ raise (invalid_user e) | ok user ↦ store_user user ]
