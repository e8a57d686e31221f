-- ===== src/Command/UpdateProfile.antt =====
-- modules/auth/application/command/update_profile.go
use hexagonal_backend.Common.{String, not, Option, none, some, if◌then◌else◌}
use hexagonal_backend.Common.Text.{str_eq}
use hexagonal_backend.Common.Result.{ok, err}
use hexagonal_backend.Define.Response.{UpdateProfileResponse}
use hexagonal_backend.Entity.Types.{User}
use hexagonal_backend.Entity.User.{update_profile}
use hexagonal_backend.Errors.{
  is_not_found, new_err, update_profile_failed, err_invalid_token, err_email_duplicated,
  err_update_profile,
}
use hexagonal_backend.World.Monad.{when◌then◌else◌, M, pure, raise, raise_if, attempt, ◌>>=◌, ◌>>◌}
use hexagonal_backend.World.Stores.{find_user_by_id, find_user_by_email, save_user}

pub record Command : Type 0 where
  pub user_id : String
  pub username : Option String
  pub nickname : Option String
  pub email : Option String

-- checkEmailAvailable
unfoldable pub check_email_available : String → String → String → M (Unit {0})
check_email_available tenant_id email exclude_id = do
  found ← attempt (find_user_by_email tenant_id email)
  elim found [
    | ok other ↦ raise_if (not (str_eq other.id exclude_id)) err_email_duplicated
    | err e ↦ when is_not_found e then pure tt else raise e
  ]

abbrev check_email : User → Command → Option String → M (Unit {0})
check_email user c none = pure tt
check_email user c (some email) = check_email_available user.tenant_id email c.user_id

apply_update : Command → User → M UpdateProfileResponse
apply_update c user = do
  check_email user c c.email
  updated ←
      update_profile user (record { username = c.username; nickname = c.nickname; email = c.email })
  saved ← attempt (save_user updated)
  elim saved [
    | err e ↦ raise err_update_profile
    | ok _ ↦ pure (record {
      updated_at = updated.updated_at;
      user_id = updated.id;
      email = updated.email;
      username = updated.username;
      nickname = updated.nickname;
      email_verified = updated.email_verified;
    })
  ]

-- Execute
unfoldable pub execute : Command → M UpdateProfileResponse
unfolding apply_update
execute c = do
  found ← attempt (find_user_by_id c.user_id)
  elim found [
    | err e ↦ raise (if is_not_found e then err_invalid_token else new_err update_profile_failed e)
    | ok user ↦ apply_update c user
  ]
