-- ===== src/Query/Authorize.antt =====
-- modules/auth/application/query/authorize.go
pub mod Registered
use Prim.Native.String.{len}
use hexagonal_backend.Common.{
  ℕ, String, Bool, true, false, not, ◌&&◌, ◌||◌, Option, none, some, is_some, ◌==◌, ltb, List,
  if◌then◌else◌, contains,
}
use hexagonal_backend.Common.Text.{is_empty, str_eq}
use hexagonal_backend.Common.Result.{Result, ok, err}
use hexagonal_backend.Define.Keys.{authorize_request_key}
use hexagonal_backend.Define.Response.{AuthorizeAnswer, error_redirect, session_started}
use hexagonal_backend.Entity.AuthRequest.{
  new_authorize_request, authorize_request_ttl, code_challenge_method_s256,
}
use hexagonal_backend.Entity.Client.{default_tenant_id, allows_redirect_uri, is_public}
use hexagonal_backend.Entity.Scope.{fields, new_scope, scope_openid}
use hexagonal_backend.Entity.Types.{Client, AuthorizeRequest}
use hexagonal_backend.Errors.{err_invalid_redirect_uri}
use hexagonal_backend.World.{request}
use hexagonal_backend.World.Cache.{cache_set}
use hexagonal_backend.World.Monad.{
  when◌then◌else◌, M, pure, raise, raise_if, asks, attempt, ◌>>=◌, ◌>>◌,
}
use hexagonal_backend.World.Stores.{find_client}

abbrev pub response_type_code : String
response_type_code = "code"

abbrev pub code_challenge_length : ℕ
code_challenge_length = 43

abbrev pub max_state_nonce_len : ℕ
max_state_nonce_len = 1024

pub record Query : Type 0 where
  pub response_type : String
  pub client_id : String
  pub redirect_uri : String
  pub scope : String
  pub state : Option String
  pub nonce : Option String
  pub code_challenge : Option String
  pub code_challenge_method : Option String

method_is_s256 : Option String → Bool
method_is_s256 none = false
method_is_s256 (some m) = str_eq m code_challenge_method_s256

-- validPKCE
unfoldable pub valid_pkce : Query → Bool
unfolding method_is_s256
valid_pkce q = elim q.code_challenge [
  | none ↦ not (is_some q.code_challenge_method)
  | some c ↦ (len c == code_challenge_length) && method_is_s256 q.code_challenge_method
]

-- tooLong
abbrev pub too_long : Option String → Bool
too_long none = false
too_long (some s) = ltb max_state_nonce_len (len s)

abbrev has_openid : Result (List String) → Bool
has_openid (err _) = false
has_openid (ok scope) = contains scope scope_openid

-- protocolError: the code of RFC 6749 to redirect with, or the empty text
unfoldable pub protocol_error : Query → Client → String
unfolding valid_pkce
protocol_error q client =
    if is_empty q.response_type
    then "invalid_request"
    else if not (str_eq q.response_type response_type_code)
    then "unsupported_response_type"
    else if not (has_openid (new_scope (fields q.scope)))
    then "invalid_scope"
    else if not (valid_pkce q) || (is_public client && not (is_some q.code_challenge))
    then "invalid_request"
    else if too_long q.state || too_long q.nonce
    then "invalid_request"
    else ""

unfoldable pub start_session : Query → M AuthorizeAnswer
start_session q = do
  made ← attempt (
      new_authorize_request (record {
        client_id = q.client_id;
        redirect_uri = q.redirect_uri;
        scope = q.scope;
        state = q.state;
        nonce = q.nonce;
        code_challenge = q.code_challenge;
        code_challenge_method = q.code_challenge_method;
      }))
  elim made [
    | err _ ↦ pure (error_redirect q.redirect_uri "invalid_request" q.state)
    | ok session ↦ do
      cache_set (authorize_request_key session.id) (request session) (some authorize_request_ttl)
      pure (session_started session.id)
  ]

unfoldable pub for_client : Query → Client → M AuthorizeAnswer
unfolding start_session
for_client q client = do
  allowed ← asks (λ env. allows_redirect_uri env client q.redirect_uri)
  raise_if (not allowed) err_invalid_redirect_uri
  when is_empty (protocol_error q client)
      then start_session q
      else pure (error_redirect q.redirect_uri (protocol_error q client) q.state)

-- Execute
unfoldable pub execute : Query → M AuthorizeAnswer
unfolding for_client
execute q = do
  found ← asks (λ env. find_client default_tenant_id q.client_id env.clients)
  elim found [ none ↦ raise err_invalid_redirect_uri | some client ↦ for_client q client ]
