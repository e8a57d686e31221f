-- ===== src/Service/Authenticator.antt =====
-- modules/auth/application/service/client_authenticator.go
pub mod Sound
use hexagonal_backend.Common.{
  String, Bool, true, false, not, ◌&&◌, ◌||◌, Option, none, some, if◌then◌else◌,
}
use hexagonal_backend.Common.Text.{is_empty, str_eq}
use hexagonal_backend.Common.Result.{Result, ok, err, ◌>>=◌, ◌>>◌, fail_if, is_ok}
use hexagonal_backend.Entity.Client.{default_tenant_id, verify_secret}
use hexagonal_backend.Entity.Types.{
  ClientAuthMethod, none_method, secret_basic, secret_post, other_method, Client,
}
use hexagonal_backend.Env.{Env}
use hexagonal_backend.Errors.{plain}
use hexagonal_backend.World.Stores.{find_client}

pub record ClientCredentials : Type 0 where
  pub client_id : String
  pub form_secret : String
  pub basic_client_id : String
  pub basic_secret : String

-- The identification, the secret, and whether they came over Basic.
pub record Channel : Type 0 where
  pub client_id : String
  pub secret : String
  pub via_basic : Bool

-- resolveCredentialChannel
unfoldable pub resolve_credential_channel : ClientCredentials → Result Channel
resolve_credential_channel creds =
    if is_empty creds.basic_client_id
    then ok (record { client_id = creds.client_id; secret = creds.form_secret; via_basic = false })
    else if not (is_empty creds.client_id) && not (str_eq creds.client_id creds.basic_client_id)
    then err (plain "client_id mismatch between Basic auth and request body")
    else ok (record {
      client_id = creds.basic_client_id;
      secret = creds.basic_secret;
      via_basic = true;
    })

check_secret : Env → Client → String → Result Client
check_secret env client secret =
    if is_ok (verify_secret env client secret)
    then ok client
    else err (plain "client authentication failed")

check_method : Env → Client → Channel → ClientAuthMethod → Result Client
unfolding check_secret
check_method env client ch none_method =
    if ch.via_basic || not (is_empty ch.secret)
    then err (plain "public client must not present credentials")
    else ok client
check_method env client ch secret_basic =
    if not ch.via_basic
    then err (plain "client must authenticate with client_secret_basic")
    else check_secret env client ch.secret
check_method env client ch secret_post =
    if ch.via_basic
    then err (plain "client must authenticate with client_secret_post")
    else check_secret env client ch.secret
check_method env client ch (other_method m) = err (plain "unsupported client auth method")

-- Authenticate
unfoldable pub authenticate : Env → ClientCredentials → Result Client
unfolding resolve_credential_channel check_method
authenticate env creds = do
  ch ← resolve_credential_channel creds
  elim (find_client default_tenant_id ch.client_id env.clients) [
    | none ↦ err (plain "unknown client")
    | some client ↦ check_method env client ch client.auth_method
  ]
