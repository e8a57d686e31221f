-- ===== src/Web/Router.antt =====
-- modules/auth/adapter/in/router.go: the routes and their chains.
pub mod Safe
pub mod Token
pub mod Failures
pub mod Chains
use hexagonal_backend.Common.{String, Bool, true, false, Option, none, some, List, [], ◌∷◌}
use hexagonal_backend.Env.{Env, Claims}
use hexagonal_backend.Web.{Context}
use hexagonal_backend.Web.GrantType.{grant_type, grant_type_is}
use hexagonal_backend.Web.Handler.{Handler, Module, handle, handle_if}
use hexagonal_backend.Web.Headers.{cache_public, oauth2_errors}
use hexagonal_backend.Web.Identity.{
  extract_client_credentials, extract_access_token, authenticate, authenticate_optional,
}
use hexagonal_backend.Web.Responder.{response_with_html}

-- What the router is given: the module, the environment, the verification of a bearer token with the
-- revocation checker, and the JSON decoder of the grant type.
pub record Router : Type 0 where
  pub app : Module
  pub env : Env
  pub verify : String → Option (Claims × String)
  pub decode_grant_type : String → Option String

pub record Route : Type 0 where
  pub method : String
  pub path : String
  pub chain : List Handler

abbrev pub grant_type_refresh_token : String
grant_type_refresh_token = "refresh_token"

abbrev pub grant_type_auth_code : String
grant_type_auth_code = "authorization_code"

abbrev pub grant_type_password : String
grant_type_password = "password"

abbrev pub allowed_grant_types : List String
allowed_grant_types = grant_type_refresh_token ∷ grant_type_auth_code ∷ grant_type_password ∷ []

module _ (ro : Router) where
  -- tokenHandlers
  abbrev pub token_handlers : List Handler
  token_handlers =
      oauth2_errors
      ∷ grant_type ro.decode_grant_type ro.app.unknown allowed_grant_types
      ∷ extract_client_credentials
      ∷ handle_if ro.app (grant_type_is grant_type_refresh_token) "RefreshTokenCommand"
      ∷ handle_if ro.app (grant_type_is grant_type_auth_code) "ExchangeCodeCommand"
      ∷ handle_if ro.app (grant_type_is grant_type_password) "GetTokenQuery"
      ∷ []

  abbrev runs : String → Handler
  runs = handle ro.app false

  abbrev cached : Handler
  cached = cache_public "300"

  abbrev route : String → String → List Handler → Route
  route method path chain = record { method = method; path = path; chain = chain }

  -- registerPublicRoutes, with signUp
  abbrev pub public_routes : List Route
  public_routes =
      route "GET" "/sign-in" (handle ro.app true "GetSignInQuery" ∷ [])
      ∷ route "GET" "/sign-up" (response_with_html "sign_up" "Create Account" ∷ [])
      ∷ route "GET" "/authorize" (runs "GetAuthorizeQuery" ∷ [])
      ∷ route "GET" "/protocol/openid-connect/auth" (runs "GetAuthorizeQuery" ∷ [])
      ∷ route "GET" "/protocol/openid-connect/certs" (cached ∷ runs "GetJWKSQuery" ∷ [])
      ∷ route "POST" "/token" token_handlers
      ∷ route "POST" "/protocol/openid-connect/token" token_handlers
      ∷ route "POST" "/sign-up" (runs "CreateUserCommand" ∷ [])
      ∷ route "POST" "/sign-in" (runs "CreateAuthCodeCommand" ∷ [])
      ∷ route "POST" "/forgot-password" (runs "ForgotPasswordCommand" ∷ [])
      ∷ route "POST" "/reset-password" (runs "ResetPasswordCommand" ∷ [])
      ∷ route "GET" "/.well-known/openid-configuration" (cached ∷ runs "GetDiscoveryQuery" ∷ [])
      ∷ route "GET" "/.well-known/jwks.json" (cached ∷ runs "GetJWKSQuery" ∷ [])
      ∷ []

  -- The chains of /oidc/revoke and /oidc/introspect.
  abbrev pub revoke_handlers : List Handler
  revoke_handlers =
      oauth2_errors
      ∷ authenticate_optional ro.verify
      ∷ extract_client_credentials
      ∷ runs "RevokeTokenCommand"
      ∷ []

  abbrev pub introspect_handlers : List Handler
  introspect_handlers =
      oauth2_errors ∷ extract_client_credentials ∷ runs "IntrospectTokenQuery" ∷ []

  abbrev bearer : Handler
  bearer = authenticate ro.verify ro.app.unknown

  -- registerOIDCRoutes
  abbrev pub oidc_routes : List Route
  oidc_routes =
      route "GET" "/userinfo" (bearer ∷ runs "GetProfileQuery" ∷ [])
      ∷ route "GET" "/protocol/openid-connect/userinfo" (bearer ∷ runs "GetProfileQuery" ∷ [])
      ∷ route "GET" "/oidc/logout" (extract_access_token ro.env ∷ runs "LogoutCommand" ∷ [])
      ∷ route "POST" "/oidc/logout" (extract_access_token ro.env ∷ runs "LogoutCommand" ∷ [])
      ∷ route "POST" "/oidc/revoke" revoke_handlers
      ∷ route "POST" "/oidc/introspect" introspect_handlers
      ∷ route "GET" "/oidc/me" (bearer ∷ runs "GetProfileQuery" ∷ [])
      ∷ []

  -- registerV3Routes
  abbrev pub v3_routes : List Route
  v3_routes = route "POST" "/api/v3/update-profile" (bearer ∷ runs "UpdateProfileCommand" ∷ []) ∷ []
