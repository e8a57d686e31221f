-- ===== src/Entity/Client.antt =====
-- modules/auth/domain/entity/client.go and the client ids of ids.go.
use hexagonal_backend.Common.{
  ℕ, String, Bool, true, false, not, [], ◌∷◌, map, Option, none, some, if◌then◌else◌, contains,
  is_nil,
}
use hexagonal_backend.Common.Text.{is_empty, str_eq}
use hexagonal_backend.Common.Result.{Result, ok, err, ◌>>=◌, ◌>>◌, fail_if}
use hexagonal_backend.Entity.Types.{
  ClientAuthMethod, none_method, secret_basic, secret_post, other_method, Client, ClientArgs,
}
use hexagonal_backend.Env.{Env}
use hexagonal_backend.Errors.{plain, backend}

abbrev pub default_tenant_id : String
default_tenant_id = "default"

-- ParseClientAuthMethod
unfoldable pub parse_client_auth_method : String → Result ClientAuthMethod
parse_client_auth_method raw =
    if str_eq raw "none"
    then ok none_method
    else if str_eq raw "client_secret_basic"
    then ok secret_basic
    else if str_eq raw "client_secret_post"
    then ok secret_post
    else err (plain "unsupported token_endpoint_auth_method")

abbrev pub grant_authorization_code : String
grant_authorization_code = "authorization_code"

abbrev pub grant_refresh_token : String
grant_refresh_token = "refresh_token"

abbrev pub grant_password : String
grant_password = "password"

abbrev pub grant_client_credentials : String
grant_client_credentials = "client_credentials"

-- ParseGrantType
unfoldable pub parse_grant_type : String → Result String
unfolding contains
parse_grant_type raw =
    if contains
      (grant_authorization_code ∷ grant_refresh_token ∷ grant_password ∷ grant_client_credentials
        ∷ [])
      raw
    then ok raw
    else err (plain "unsupported grant type")

-- normalizeRedirectURI
unfoldable pub normalize_redirect_uri : Env → String → String
normalize_redirect_uri env raw = elim (env.parse_url raw) [ none ↦ raw | some uri ↦ uri.text ]

-- NewClientID
unfoldable pub new_client_id : String → Result String
new_client_id id = if is_empty id then err (plain "client_id must not be empty") else ok id

check_secret : ClientAuthMethod → String → Result (Unit {0})
check_secret none_method secret =
    fail_if (not (is_empty secret))
      (plain "public client (auth method none) must not have a secret")
check_secret secret_basic secret =
    fail_if (is_empty secret) (plain "confidential client requires a secret")
check_secret secret_post secret =
    fail_if (is_empty secret) (plain "confidential client requires a secret")
check_secret (other_method m) secret = err (plain "unsupported token_endpoint_auth_method")

-- ClientArgs.validate
unfoldable pub validate : ClientArgs → Result (Unit {0})
unfolding check_secret
validate args = do
  fail_if (is_nil args.redirect_uris) (plain "client must have at least one redirect URI")
  fail_if (is_nil args.allowed_grants) (plain "client must allow at least one grant type")
  check_secret args.auth_method args.secret

hash_with : Env → ℕ → ClientAuthMethod → String → Result (Option String)
hash_with env salt none_method secret = ok none
hash_with env salt _ secret = elim (env.bcrypt_generate salt 10 secret) [
  | none ↦ err backend
  | some h ↦ ok (some h)
]

-- ClientArgs.hashSecret, with bcrypt.DefaultCost
unfoldable pub hash_secret : Env → ℕ → ClientArgs → Result (Option String)
unfolding hash_with
hash_secret env salt args = hash_with env salt args.auth_method args.secret

-- NewClient
unfoldable pub new_client : Env → ℕ → ClientArgs → Result Client
unfolding new_client_id validate hash_secret normalize_redirect_uri
new_client env salt args = do
  client_id ← new_client_id args.id
  validate args
  secret_hash ← hash_secret env salt args
  ok (record {
    id = client_id;
    tenant_id = if is_empty args.tenant_id then default_tenant_id else args.tenant_id;
    auth_method = args.auth_method;
    secret_hash = secret_hash;
    redirect_uris = map (normalize_redirect_uri env) args.redirect_uris;
    allowed_grants = args.allowed_grants;
  })

abbrev pub is_none_method : ClientAuthMethod → Bool
is_none_method none_method = true
is_none_method _ = false

-- IsPublic
abbrev pub is_public : Client → Bool
is_public c = is_none_method c.auth_method

-- VerifySecret
unfoldable pub verify_secret : Env → Client → String → Result (Unit {0})
verify_secret env c secret = elim c.secret_hash [
  | none ↦ err (plain "client has no secret")
  | some h ↦ if env.bcrypt_matches h secret then ok tt else err backend
]

-- AllowsGrant
unfoldable pub allows_grant : Client → String → Bool
allows_grant c grant = contains c.allowed_grants grant

-- AllowsRedirectURI
unfoldable pub allows_redirect_uri : Env → Client → String → Bool
allows_redirect_uri env c uri = contains c.redirect_uris (normalize_redirect_uri env uri)
