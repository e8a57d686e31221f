-- ===== src/Command/CreateAuthCode.antt =====
-- modules/auth/application/command/create_auth_code.go: the sign-in form.
pub mod Rejection
use hexagonal_backend.Common.{
  ℕ, String, Bool, true, false, not, ◌&&◌, ◌||◌, Option, none, some, is_some, ◌==◌, if◌then◌else◌,
}
use hexagonal_backend.Common.Text.{str_eq}
use hexagonal_backend.Common.Result.{Result, ok, err, is_ok}
use hexagonal_backend.Define.Keys.{authorize_request_key, auth_code_key, as_request}
use hexagonal_backend.Entity.AuthCode.{new_auth_code, auth_code_ttl}
use hexagonal_backend.Entity.AuthRequest.{
  validate, request_fail, is_locked_out, build_redirect_uri, authorize_request_ttl,
}
use hexagonal_backend.Entity.Client.{default_tenant_id}
use hexagonal_backend.Entity.Types.{User, AuthorizeRequest, AuthCode}
use hexagonal_backend.Entity.User
use hexagonal_backend.Entity.User.{
  password_matches, rehash_password_if_needed, record_failed_login, reset_failed_logins,
}
use hexagonal_backend.Errors.{
  is_not_found, err_invalid_session, err_invalid_email_or_password, err_max_login_attempts_exceeded,
  err_auth_code_create_failed,
}
use hexagonal_backend.World.{request, code}
use hexagonal_backend.World.Cache.{get_and_delete, cache_set}
use hexagonal_backend.World.Monad.{
  when◌then◌else◌, M, pure, raise, raise_if, asks, attempt, best_effort, ◌>>=◌, ◌>>◌,
}
use hexagonal_backend.World.Stores.{find_user_by_email, save_user}

pub record Command : Type 0 where
  pub email : String
  pub password : String
  pub csrf_token : String
  pub session_id : String

-- recordAccountFailure
unfoldable pub record_account_failure : Option User → M (Unit {0})
record_account_failure none = pure tt
record_account_failure (some user) = do
  failed ← record_failed_login user
  best_effort (save_user failed)

-- resetAccountFailures
reset_account_failures : User → Bool → M (Unit {0})
reset_account_failures user dirty =
    let has_failures = not (user.failed_login_attempts == 0) || is_some user.locked_until in
    when not has_failures && not dirty then pure tt else (do
      user' ← when has_failures then reset_failed_logins user else pure user
      best_effort (save_user user'))

-- The branch of verifyCredentials for a wrong password or an unknown user.
unfoldable pub reject_credentials : {A : Type 0} → AuthorizeRequest → Option User → M A
unfolding record_account_failure
reject_credentials session user = do
  record_account_failure user
  let failed = request_fail session
  raise_if (is_locked_out failed) err_max_login_attempts_exceeded
  best_effort
      (cache_set (authorize_request_key failed.id) (request failed) (some authorize_request_ttl))
  raise err_invalid_email_or_password

check_user : AuthorizeRequest → String → User → M String
unfolding reset_account_failures
check_user session password user = do
  locked ← User.is_locked_out user
  raise_if locked err_invalid_email_or_password
  matches ← asks (λ env. password_matches env user password)
  when not matches then reject_credentials session (some user) else (do
    (user', rehashed) ← rehash_password_if_needed user password
    reset_account_failures user' rehashed
    pure user'.id)

-- verifyCredentials
unfoldable pub verify_credentials : AuthorizeRequest → String → String → M String
unfolding check_user
verify_credentials session email password = do
  found ← attempt (find_user_by_email default_tenant_id email)
  elim found [
    | ok user ↦ check_user session password user
    | err e ↦ when is_not_found e then reject_credentials session none else raise e
  ]

issue_code : AuthorizeRequest → String → M String
issue_code session user_id = do
  made ← attempt (
      new_auth_code (record {
        user_id = user_id;
        client_id = session.client_id;
        redirect_uri = session.redirect_uri;
        scope = session.scope;
        nonce = session.nonce;
        code_challenge = session.code_challenge;
        code_challenge_method = session.code_challenge_method;
      }))
  elim made [
    | err e ↦ raise err_auth_code_create_failed
    | ok c ↦ do
      cache_set (auth_code_key c.code) (code c) (some auth_code_ttl)
      asks (λ env. build_redirect_uri env session c.code)
  ]

-- Execute, on the session that was taken out of the cache
with_session : Command → AuthorizeRequest → M String
unfolding issue_code
with_session c session = do
  valid ← asks (λ env. is_ok (validate env session))
  raise_if (not valid) err_invalid_session
  raise_if (not (str_eq c.csrf_token session.csrf_token)) err_invalid_session
  user_id ← verify_credentials session c.email c.password
  issue_code session user_id

-- Execute: the redirect URI of CreateAuthCodeResponse
unfoldable pub execute : Command → M String
unfolding with_session
execute c = do
  taken ← get_and_delete as_request (authorize_request_key c.session_id)
  elim taken [ none ↦ raise err_invalid_session | some session ↦ with_session c session ]
