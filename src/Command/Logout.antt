-- ===== src/Command/Logout.antt =====
-- modules/auth/application/command/logout.go
pub mod Redirect
use hexagonal_backend.Common.{String, Bool, not, ◌||◌, Option, none, some, if◌then◌else◌, contains}
use hexagonal_backend.Common.Text.{is_empty}
use hexagonal_backend.Common.Result.{ok, err}
use hexagonal_backend.Env.{Env, Claims}
use hexagonal_backend.Service.Jwt.{parse_jwt}
use hexagonal_backend.Service.Jwt
use hexagonal_backend.Service.Revocation.{blacklist_jti, mark_grant_revoked}
use hexagonal_backend.World.Monad.{when◌then◌else◌, M, pure, asks, best_effort, ◌>>=◌, ◌>>◌, now}
use hexagonal_backend.World.Stores.{revoke_all_for_grant, revoke_all_for_user, revoke_grant_row}

pub record Command : Type 0 where
  pub access_token : Option String
  pub post_logout_redirect_uri : Option String

-- blacklistAccessToken
blacklist_access_token : Claims → M (Unit {0})
blacklist_access_token claims = when is_empty claims.id then pure tt else (do
  expired ← Jwt.is_expired claims
  elim claims.expires_at [
    | none ↦ pure tt
    | some expires ↦ when expired then pure tt else best_effort (blacklist_jti claims.id expires)
  ])

-- revokeGrant
revoke_grant : String → M (Unit {0})
revoke_grant grant_id = do t ← now; best_effort (revoke_grant_row grant_id t)

-- revokeGrantTokens
revoke_grant_tokens : Claims → M (Unit {0})
unfolding revoke_grant
revoke_grant_tokens claims =
    when not (is_empty claims.grant_id)
    then (do
      revoke_grant claims.grant_id
      best_effort (revoke_all_for_grant claims.grant_id)
      best_effort (mark_grant_revoked claims.grant_id))
    else when not (is_empty claims.subject)
    then best_effort (revoke_all_for_user claims.subject)
    else pure tt

-- revokeIfAuthenticated
unfoldable pub revoke_if_authenticated : Option String → M (Unit {0})
unfolding blacklist_access_token revoke_grant_tokens
revoke_if_authenticated none = pure tt
revoke_if_authenticated (some token) = do
  parsed ← asks (λ env. parse_jwt env token)
  elim parsed [
    | err _ ↦ pure tt
    | ok claims ↦ blacklist_access_token claims >> revoke_grant_tokens claims
  ]

-- The redirect of LogoutResponse; empty without one.
unfoldable pub logout_redirect : Env → Option String → String
logout_redirect env none = ""
logout_redirect env (some uri) = if contains env.post_logout_redirect_allowlist uri then uri else ""

-- Execute
unfoldable pub execute : Command → M String
unfolding logout_redirect
execute c = do
  revoke_if_authenticated c.access_token
  asks (λ env. logout_redirect env c.post_logout_redirect_uri)
