-- ===== src/Query/GetSignIn.antt =====
-- modules/auth/application/query/get_sign_in.go: the CSRF token of the sign-in page.
use hexagonal_backend.Common.{String, not, none, some}
use hexagonal_backend.Common.Result.{is_ok}
use hexagonal_backend.Define.Keys.{authorize_request_key, as_request}
use hexagonal_backend.Entity.AuthRequest.{validate}
use hexagonal_backend.Entity.Types.{AuthorizeRequest}
use hexagonal_backend.Errors.{err_invalid_session}
use hexagonal_backend.World.Cache.{cache_get}
use hexagonal_backend.World.Monad.{M, pure, raise, raise_if, asks, ◌>>=◌, ◌>>◌}

show_session : AuthorizeRequest → M String
show_session session = do
  valid ← asks (λ env. is_ok (validate env session))
  raise_if (not valid) err_invalid_session
  pure session.csrf_token

-- Execute
unfoldable pub execute : String → M String
unfolding show_session
execute session_id = do
  found ← cache_get as_request (authorize_request_key session_id)
  elim found [ none ↦ raise err_invalid_session | some session ↦ show_session session ]
