-- ===== src/Service/Issuance.antt =====
-- modules/auth/application/service/token_issuance.go
use hexagonal_backend.Common.{ℕ, String, Option, none, some, if◌then◌else◌, contains}
use hexagonal_backend.Common.Text.{is_empty}
use hexagonal_backend.Common.Result.{ok, err}
use hexagonal_backend.Entity.Grant.{new_grant}
use hexagonal_backend.Entity.Scope.{join, scope_openid}
use hexagonal_backend.Entity.Types.{User, Scope, Grant, IssuedTokens}
use hexagonal_backend.Errors.{ErrCode, new_err, gen_token_failed, gen_refresh_token_failed}
use hexagonal_backend.Service.Jwt.{gen_access_token, gen_refresh_token, gen_id_token}
use hexagonal_backend.World.Monad.{when◌then◌else◌, M, pure, raise, attempt, ◌>>=◌}

pub record IssueTokensArgs : Type 0 where
  pub user : User
  pub client_id : String
  pub nonce : String
  pub scope : Scope
  pub expire_secs : ℕ
  pub existing_grant_id : String

-- `if err != nil { return nil, coreerror.NewErr(code, err) }`
abbrev pub wrapping : {A : Type 0} → ErrCode → M A → M A
wrapping code m = do r ← attempt m; elim r [ ok a ↦ pure a | err e ↦ raise (new_err code e) ]

-- The grant to issue under: the existing one, or a new one.
unfoldable pub resolve_grant : IssueTokensArgs → M (String × Option Grant)
resolve_grant req =
    when is_empty req.existing_grant_id
    then (do g ← new_grant req.user.id req.client_id; pure (g.id, some g))
    else pure (req.existing_grant_id, none)

unfoldable pub issue_id_token : IssueTokensArgs → String → M String
issue_id_token req grant_id =
    when contains req.scope scope_openid
    then wrapping gen_token_failed (
        gen_id_token (record {
          user_id = req.user.id;
          client_id = req.client_id;
          email = req.user.email;
          nonce = req.nonce;
          grant_id = grant_id;
          email_verified = req.user.email_verified;
          expire_secs = req.expire_secs;
        }))
    else pure ""

-- IssueTokens
unfoldable pub issue_tokens : IssueTokensArgs → M IssuedTokens
unfolding resolve_grant issue_id_token
issue_tokens req = do
  (grant_id, new) ← resolve_grant req
  access_token ←
      wrapping gen_token_failed
        (gen_access_token req.user.id (join req.scope) grant_id req.expire_secs)
  refresh_token ← wrapping gen_refresh_token_failed (gen_refresh_token req.user.id)
  id_token ← issue_id_token req grant_id
  pure (record {
    access_token = access_token;
    refresh_token = refresh_token;
    id_token = id_token;
    scope = req.scope;
    grant_id = grant_id;
    new_grant = new;
  })
