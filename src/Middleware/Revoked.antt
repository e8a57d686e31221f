-- ===== src/Middleware/Revoked.antt =====
-- modules/auth/adapter/in/revocation_checker.go
pub mod Markers
pub mod Sessions
use hexagonal_backend.Common.{String, Bool, true, false, Option, none, some, leb, if◌then◌else◌}
use hexagonal_backend.Common.Text.{is_empty}
use hexagonal_backend.Common.Time.{Time, unix}
use hexagonal_backend.Define.Keys.{
  blacklist_key, revoked_grant_key, sessions_invalidated_key, as_number,
}
use hexagonal_backend.Env.{Claims}
use hexagonal_backend.World.Cache.{cache_has, cache_get}
use hexagonal_backend.World.Monad.{when◌then◌else◌, M, pure, ◌>>=◌}

check_sessions : String → Time → M Bool
check_sessions subject issued_at = do
  found ← cache_get as_number (sessions_invalidated_key subject)
  elim found [
    | none ↦ pure false
    | some invalidated_at ↦ pure (leb (unix issued_at) invalidated_at)
  ]

unfoldable pub check_user : Claims → M Bool
unfolding check_sessions
check_user claims = elim claims.issued_at [
  | none ↦ pure false
  | some t ↦ check_sessions claims.subject t
]

unfoldable pub check_grant : Claims → M Bool
check_grant claims =
    when is_empty claims.grant_id then pure false else cache_has (revoked_grant_key claims.grant_id)

-- IsRevoked
unfoldable pub is_revoked : Claims → M Bool
unfolding check_grant check_user
is_revoked claims = do
  by_jti ← cache_has (blacklist_key claims.id)
  when by_jti
      then pure true
      else (do by_grant ← check_grant claims; when by_grant then pure true else check_user claims)
