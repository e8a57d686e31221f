-- ===== src/Config.antt =====
-- cmd/auth/config/config.go: the settings from the environment variables, and the registered
-- clients among them.
pub mod Parse
pub mod Clients
pub mod Settings
use Prim.Native.String.{◌++◌}
use hexagonal_backend.Common.{
  ℕ, zero, suc, ◌+◌, String, Bool, true, false, Option, none, some, List, [], ◌∷◌, if◌then◌else◌,
  is_nil,
}
use hexagonal_backend.Common.Int.{ℤ}
use hexagonal_backend.Common.Text.{is_empty, str_eq}
use hexagonal_backend.Common.Result.{Result, ok, err, ◌>>=◌}
use hexagonal_backend.Errors.{plain}
use Parse.{
  itoa, normalize_port, parse_cors_origins, parse_comma_separated, parse_scope_allowlist,
  parse_redis_db, parse_rate_limit_per_min, parse_rate_limit_window,
}

-- os.Getenv, where a variable that is not set is empty.
abbrev pub Variables : Type 0
Variables = String → String

pub record ClientConfig : Type 0 where
  pub id : String
  pub auth_method : String
  pub secret : String
  pub redirect_uris : List String
  pub allowed_grants : List String

abbrev pub default_client_id : String
default_client_id = "client-123"

abbrev pub default_client_auth_method : String
default_client_auth_method = "none"

abbrev pub default_client_redirect_uris : List String
default_client_redirect_uris =
    "https://app.example.com/callback" ∷ "http://localhost:3000/callback" ∷ []

abbrev pub default_client_allowed_grants : List String
default_client_allowed_grants =
    "authorization_code" ∷ "refresh_token" ∷ "password" ∷ "client_credentials" ∷ []

-- parseClientConfigFields
unfoldable pub parse_client_config_fields : Variables → String → String → ClientConfig
unfolding parse_comma_separated
parse_client_config_fields getenv prefix id =
    let auth_method = getenv (prefix ++ "AUTH_METHOD") in
    let grants = parse_comma_separated (getenv (prefix ++ "ALLOWED_GRANTS")) in
    record {
      id = id;
      auth_method = if is_empty auth_method then default_client_auth_method else auth_method;
      secret = getenv (prefix ++ "SECRET");
      redirect_uris = parse_comma_separated (getenv (prefix ++ "REDIRECT_URIS"));
      allowed_grants = if is_nil grants then default_client_allowed_grants else grants;
    }

-- parsePrimaryClientConfig
unfoldable pub parse_primary_client_config : Variables → Result ClientConfig
unfolding parse_client_config_fields
parse_primary_client_config getenv =
    let id = getenv "OAUTH_CLIENT_ID" in
    if is_empty id
    then (if str_eq (getenv "DEV_SEED") "true"
        then ok (record {
          id = default_client_id;
          auth_method = default_client_auth_method;
          secret = "";
          redirect_uris = default_client_redirect_uris;
          allowed_grants = default_client_allowed_grants;
        })
        else err (
            plain
              "no OAuth client configured: set OAUTH_CLIENT_ID (and related OAUTH_CLIENT_* vars), or DEV_SEED=true for local development"))
    else ok (parse_client_config_fields getenv "OAUTH_CLIENT_" id)

unfoldable pub client_prefix : ℕ → String
unfolding itoa
client_prefix n = "OAUTH_CLIENT_" ++ itoa n ++ "_"

-- The loop of parseClientConfigs from n on, for `fuel` rounds; `none` when they are not enough.
unfoldable pub more_clients : ℕ → ℕ → Variables → Option (List ClientConfig)
unfolding client_prefix parse_client_config_fields
more_clients zero n getenv = none
more_clients (suc fuel) n getenv =
    let prefix = client_prefix n in
    let id = getenv (prefix ++ "ID") in
    let rest = more_clients fuel (n + 1) getenv in
    if is_empty id then some [] else elim rest [
      | none ↦ none
      | some clients ↦ some (parse_client_config_fields getenv prefix id ∷ clients)
    ]

unfoldable pub with_primary :
    Result ClientConfig → Option (List ClientConfig) → Option (Result (List ClientConfig))
with_primary (err e) more = some (err e)
with_primary (ok primary) none = none
with_primary (ok primary) (some clients) = some (ok (primary ∷ clients))

-- parseClientConfigs
unfoldable pub parse_client_configs : ℕ → Variables → Option (Result (List ClientConfig))
unfolding with_primary
parse_client_configs fuel getenv =
    with_primary (parse_primary_client_config getenv) (more_clients fuel 2 getenv)
