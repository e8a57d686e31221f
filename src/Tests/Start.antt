-- ===== src/Tests/Start.antt =====
-- The configuration from concrete environment variables.
use hexagonal_backend.Common.{
  ℕ, zero, suc, ◌+◌, ◌<◌, ◌≡◌, refl, false, some, [], ◌∷◌, if◌then◌else◌, arith,
}
use hexagonal_backend.Common.Int.{negsuc}
use hexagonal_backend.Common.Result.{ok}
use hexagonal_backend.Common.Text.{is_empty, str_eq}
use hexagonal_backend.Config.{
  Variables, ClientConfig, default_client_allowed_grants, parse_primary_client_config,
  parse_client_configs, client_prefix,
}
use hexagonal_backend.Config.Clients.{numbered_id, numbered_clients, parse_client_configs_lem}
use hexagonal_backend.Config.Parse.{parse_comma_separated, parse_int, normalize_port, itoa}

abbrev variables : Variables
variables name =
    if str_eq name "OAUTH_CLIENT_ID"
    then "web"
    else if str_eq name "OAUTH_CLIENT_2_ID"
    then "phone"
    else if str_eq name "OAUTH_CLIENT_2_REDIRECT_URIS"
    then "app:/a , app:/b"
    else ""

abbrev web : ClientConfig
web = record {
  id = "web";
  auth_method = "none";
  secret = "";
  redirect_uris = [];
  allowed_grants = default_client_allowed_grants;
}

comma_separated_parts : parse_comma_separated " a,, b c ," ≡ ("a" ∷ "b c" ∷ [])
unfolding parse_comma_separated
comma_separated_parts = refl

negative_numbers : parse_int "-12" ≡ some (negsuc 11)
unfolding parse_int
negative_numbers = refl

port_with_colon : normalize_port "8080" ≡ ":8080"
unfolding normalize_port
port_with_colon = refl

two_digits : itoa 12 ≡ "12"
unfolding itoa
two_digits = refl

only_one : (j : ℕ) → j < 1 → is_empty (numbered_id variables (2 + j)) ≡ false
unfolding client_prefix
only_one zero h = refl
only_one (suc j) h = absurd (omega (arith, h))

parse_client_configs_lem_example :
    parse_client_configs 5 variables ≡ some (ok (web ∷ numbered_clients variables 2 1))
unfolding parse_primary_client_config client_prefix
parse_client_configs_lem_example =
    parse_client_configs_lem variables web 1 5 refl refl only_one (omega arith)
