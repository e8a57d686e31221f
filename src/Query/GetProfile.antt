-- ===== src/Query/GetProfile.antt =====
-- modules/auth/application/query/get_profile.go
use hexagonal_backend.Common.{String, if◌then◌else◌}
use hexagonal_backend.Common.Time.{unix}
use hexagonal_backend.Common.Result.{ok, err}
use hexagonal_backend.Define.Response.{ProfileResponse}
use hexagonal_backend.Errors.{is_not_found, err_invalid_token}
use hexagonal_backend.World.Monad.{M, pure, raise, attempt, ◌>>=◌}
use hexagonal_backend.World.Stores.{find_user_by_id}

-- Execute
unfoldable pub execute : String → M ProfileResponse
execute user_id = do
  found ← attempt (find_user_by_id user_id)
  elim found [
    | err e ↦ raise (if is_not_found e then err_invalid_token else e)
    | ok user ↦ pure (record {
      sub = user.id;
      preferred_username = user.username;
      nickname = user.nickname;
      email = user.email;
      email_verified = user.email_verified;
      updated_at = unix user.updated_at;
    })
  ]
