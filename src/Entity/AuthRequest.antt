-- ===== src/Entity/AuthRequest.antt =====
-- modules/auth/domain/entity/auth_request.go, and the redirect_uri rule of core/validator.
use Prim.Native.String.{count}
use hexagonal_backend.Common.{
  ℕ, ◌*◌, String, Bool, true, false, not, ◌&&◌, Option, none, some, ◌==◌, if◌then◌else◌, contains,
  is_nil, List, [], ◌∷◌,
}
use hexagonal_backend.Common.Int.{incr64, int_ge}
use hexagonal_backend.Common.Text.{is_empty, str_eq}
use hexagonal_backend.Common.Time.{minute}
use hexagonal_backend.Common.Result.{Result, fail_if}
use hexagonal_backend.Entity.Client.{new_client_id}
use hexagonal_backend.Entity.Scope.{fields, new_scope, scope_openid}
use hexagonal_backend.Entity.Types.{AuthorizeRequest, AuthorizeRequestArgs}
use hexagonal_backend.Env.{Env}
use hexagonal_backend.Errors.{plain}
use hexagonal_backend.World.Monad.{M, pure, asks, ◌>>=◌, ◌>>◌, now, new_uuid, random_token, lift}

abbrev pub authorize_request_ttl : ℕ
authorize_request_ttl = 10 * minute

abbrev pub code_challenge_method_s256 : String
code_challenge_method_s256 = "S256"

abbrev pub max_failed_attempts : ℕ
max_failed_attempts = 3

-- redirectURIValidation
unfoldable pub valid_redirect_uri : Env → String → Bool
valid_redirect_uri env raw = elim (env.parse_url raw) [
  | none ↦ false
  | some u ↦ u.is_abs && not (is_empty u.host) && is_empty u.fragment
]

-- validate:"omitempty,len=43"
valid_challenge : Option String → Bool
valid_challenge none = true
valid_challenge (some c) = count c == 43

-- validate:"required_with=CodeChallenge,omitempty,oneof=S256"
valid_method : Option String → Option String → Bool
valid_method none none = true
valid_method (some c) none = false
valid_method _ (some m) = str_eq m code_challenge_method_s256

-- The rules of the struct's tags. A time of the model is never the zero time.
unfoldable pub valid_request : Env → AuthorizeRequest → Bool
unfolding valid_redirect_uri valid_challenge valid_method
valid_request env s =
    not (is_empty s.id)
    && env.valid_uuid s.id
    && not (is_empty s.csrf_token)
    && not (is_empty s.client_id)
    && not (is_empty s.redirect_uri)
    && valid_redirect_uri env s.redirect_uri
    && valid_challenge s.code_challenge
    && valid_method s.code_challenge s.code_challenge_method

-- AuthorizeRequest.Validate
unfoldable pub validate : Env → AuthorizeRequest → Result (Unit {0})
unfolding valid_request
validate env s =
    if is_nil s.scope
    then Result.err (plain "scope is required")
    else if not (contains s.scope scope_openid)
    then Result.err (plain "scope must include openid")
    else fail_if (not (valid_request env s)) (plain "validation failed")

-- NewAuthorizeRequest
unfoldable pub new_authorize_request : AuthorizeRequestArgs → M AuthorizeRequest
unfolding validate new_client_id new_scope
new_authorize_request args = do
  client_id ← lift (new_client_id args.client_id)
  scope ← lift (new_scope (fields args.scope))
  csrf_token ← random_token
  session_id ← new_uuid
  created ← now
  let s : AuthorizeRequest = record {
    id = session_id;
    created_at = created;
    csrf_token = csrf_token;
    client_id = client_id;
    redirect_uri = args.redirect_uri;
    scope = scope;
    state = args.state;
    nonce = args.nonce;
    code_challenge = args.code_challenge;
    code_challenge_method = args.code_challenge_method;
    failed_attempts = 0;
  }
  valid ← asks (λ env. validate env s)
  lift valid
  pure s

-- RequestFail
unfoldable pub request_fail : AuthorizeRequest → AuthorizeRequest
request_fail s = record s { failed_attempts = incr64 s.failed_attempts }

-- IsLockedOut
unfoldable pub is_locked_out : AuthorizeRequest → Bool
is_locked_out s = int_ge s.failed_attempts max_failed_attempts

-- The query parameters that an answer adds: one, and the state if there is one.
abbrev pub with_state : String → String → Option String → List (String × String)
with_state name value none = (name, value) ∷ []
with_state name value (some state) = (name, value) ∷ ("state", state) ∷ []

-- BuildRedirectURI
unfoldable pub build_redirect_uri : Env → AuthorizeRequest → String → String
build_redirect_uri env s code = env.with_query s.redirect_uri (with_state "code" code s.state)
