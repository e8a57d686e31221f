-- ===== src/Web/Identity.antt =====
-- handler/web/middleware/auth.go: who a request comes from. Verifying the bearer token is given, as
-- the claims and the token of an accepted one.
pub mod Protected
use hexagonal_backend.Common.{String, Bool, false, Option, none, some, if◌then◌else◌}
use hexagonal_backend.Env.{Env, Claims}
use hexagonal_backend.Middleware.Bearer.{extract_bearer_token}
use hexagonal_backend.Web.{Context, header, set_key, abort, text}
use hexagonal_backend.Web.AppError.{with_status, unauthorized}
use hexagonal_backend.Web.Handler.{Handler}
use hexagonal_backend.Web.Responder.{fail}

-- ExtractClientCredentials
unfoldable pub extract_client_credentials : Handler
extract_client_credentials c = elim c.request.basic_auth [
  | none ↦ c
  | some (id, secret) ↦
      set_key "basic_client_secret" (text secret) (set_key "basic_client_id" (text id) c)
]

-- ExtractAccessToken
unfoldable pub extract_access_token : Env → Handler
unfolding extract_bearer_token
extract_access_token env c = elim (extract_bearer_token env c.request.authorization) [
  | none ↦ c
  | some token ↦ set_key "access_token" (text token) c
]

-- setBearerIdentity
unfoldable pub set_bearer_identity : Claims → String → Handler
set_bearer_identity claims token c = set_key "grant_id" (text claims.grant_id) (
    set_key "user_id" (text claims.subject)
      (set_key "issuer" (text claims.issuer) (set_key "access_token" (text token) c)))

-- Authenticate
unfoldable pub authenticate : (String → Option (Claims × String)) → String → Handler
unfolding set_bearer_identity fail
authenticate verify unknown c = elim (verify c.request.authorization) [
  | some (claims, token) ↦ set_bearer_identity claims token c
  | none ↦ abort (
      fail unknown (with_status unauthorized 401 "invalid token") false
        (header "WWW-Authenticate" "Bearer" c))
]

-- AuthenticateOptional
unfoldable pub authenticate_optional : (String → Option (Claims × String)) → Handler
unfolding set_bearer_identity
authenticate_optional verify c = elim (verify c.request.authorization) [
  | some (claims, token) ↦ set_bearer_identity claims token c
  | none ↦ c
]
