-- ===== src/Query/GetToken.antt =====
-- modules/auth/application/query/get_token.go: the password grant.
use hexagonal_backend.Common.{
  String, Bool, true, not, ◌&&◌, ◌||◌, Option, none, some, is_some, List, [], ◌∷◌, if◌then◌else◌,
  contains,
}
use hexagonal_backend.Common.Int.{ℤ, int_gt}
use hexagonal_backend.Common.Text.{is_empty}
use hexagonal_backend.Common.Result.{Result, ok, err}
use hexagonal_backend.Command.ExchangeCode.{save_new_grant}
use hexagonal_backend.Define.Expiry.{resolve_expiry_secs}
use hexagonal_backend.Define.Response.{TokenResponse, token_response}
use hexagonal_backend.Entity.Client.{default_tenant_id}
use hexagonal_backend.Entity.Scope.{fields, new_scope}
use hexagonal_backend.Entity.Token.{new_refresh_token}
use hexagonal_backend.Entity.Types.{User, Scope}
use hexagonal_backend.Entity.User
use hexagonal_backend.Entity.User.{
  password_matches, rehash_password_if_needed, record_failed_login, reset_failed_logins,
}
use hexagonal_backend.Env.{Env}
use hexagonal_backend.Errors.{
  plain, new_err, invalid_arguments, gen_token_failed, err_invalid_email_or_password,
}
use hexagonal_backend.Service.Issuance.{issue_tokens, wrapping}
use hexagonal_backend.World.Monad.{
  when◌then◌else◌, M, pure, raise, raise_if, asks, attempt, best_effort, lift, ◌>>=◌, ◌>>◌,
}
use hexagonal_backend.World.Stores.{find_user_by_email, save_user, save_token}

pub record Query : Type 0 where
  pub email : String
  pub password : String
  pub scope : Option String
  pub expire_secs : Option ℤ

-- the loop over the requested scopes
all_allowed : List String → List String → Bool
all_allowed allowlist [] = true
all_allowed allowlist (s ∷ rest) = contains allowlist s && all_allowed allowlist rest

-- The allowlist's error is dropped: the empty scope then.
abbrev default_scope : Result Scope → Result Scope
default_scope (ok scope) = ok scope
default_scope (err _) = ok []

resolve_requested : List String → String → Result Scope
unfolding all_allowed
resolve_requested allowlist requested =
    if is_empty requested
    then default_scope (new_scope allowlist)
    else if all_allowed allowlist (fields requested)
    then new_scope (fields requested)
    else err (new_err invalid_arguments (plain "invalid scope"))

-- resolveScope
unfoldable pub resolve_scope : Env → Option String → Result Scope
unfolding resolve_requested
resolve_scope env none = default_scope (new_scope env.scope_allowlist)
resolve_scope env (some requested) = resolve_requested env.scope_allowlist requested

-- The reset of the failures, saved if anything changed.
unfoldable pub settle_failures : User → Bool → M User
settle_failures user rehashed =
    when int_gt user.failed_login_attempts 0 || is_some user.locked_until
    then (do reset ← reset_failed_logins user; best_effort (save_user reset); pure reset)
    else when rehashed
    then (do best_effort (save_user user); pure user)
    else pure user

issue_for : Query → User → M TokenResponse
issue_for q user = do
  resolved ← asks (λ env. resolve_scope env q.scope)
  scope ← lift resolved
  let expire_secs = resolve_expiry_secs q.expire_secs
  tokens ← issue_tokens (record {
    user = user;
    client_id = "";
    nonce = "";
    scope = scope;
    expire_secs = expire_secs;
    existing_grant_id = "";
  })
  rt ← new_refresh_token user.id "" tokens
  wrapping gen_token_failed (save_new_grant tokens.new_grant rt.expires_at)
  wrapping gen_token_failed (save_token rt)
  pure (token_response tokens expire_secs)

wrong_password : User → M TokenResponse
wrong_password user = do
  failed ← record_failed_login user
  best_effort (save_user failed)
  raise err_invalid_email_or_password

for_user : Query → User → M TokenResponse
unfolding issue_for wrong_password
for_user q user = do
  locked ← User.is_locked_out user
  raise_if locked err_invalid_email_or_password
  matches ← asks (λ env. password_matches env user q.password)
  when not matches then wrong_password user else (do
    (user', rehashed) ← rehash_password_if_needed user q.password
    settled ← settle_failures user' rehashed
    issue_for q settled)

-- Execute
unfoldable pub execute : Query → M TokenResponse
unfolding for_user
execute q = do
  found ← attempt (find_user_by_email default_tenant_id q.email)
  elim found [ err _ ↦ raise err_invalid_email_or_password | ok user ↦ for_user q user ]
