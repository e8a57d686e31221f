-- ===== src/Command/ExchangeCode.antt =====
-- modules/auth/application/command/exchange_code.go: an authorization code for tokens.
pub mod SingleUse
pub mod Checks
pub mod Grants
use hexagonal_backend.Common.{
  ℕ, String, Bool, true, false, not, ◌&&◌, Option, none, some, is_some, if◌then◌else◌,
}
use hexagonal_backend.Common.Int.{ℤ}
use hexagonal_backend.Common.Result.{Result, ok, err, is_ok}
use hexagonal_backend.Define.Expiry.{resolve_expiry_secs}
use hexagonal_backend.Define.Keys.{auth_code_key, as_code}
use hexagonal_backend.Define.Response.{TokenResponse, token_response}
use hexagonal_backend.Entity.AuthCode.{validate, is_valid}
use hexagonal_backend.Entity.Client.{allows_grant, is_public, grant_authorization_code}
use hexagonal_backend.Entity.Grant.{extend_to_cover}
use hexagonal_backend.Entity.Token.{new_refresh_token}
use hexagonal_backend.Entity.Types.{User, AuthCode, Client, IssuedTokens, Grant}
use hexagonal_backend.Common.Time.{Time}
use hexagonal_backend.Errors.{
  Error, plain, err_invalid_client, err_auth_code_not_found, err_invalid_grant,
}
use hexagonal_backend.Service.Authenticator.{authenticate, ClientCredentials}
use hexagonal_backend.Service.Issuance.{issue_tokens}
use hexagonal_backend.World.Cache.{get_and_delete}
use hexagonal_backend.World.Monad.{
  when◌then◌else◌, M, pure, raise, raise_if, asks, attempt, lift, ◌>>=◌, ◌>>◌,
}
use hexagonal_backend.World.Stores.{find_user_by_id, save_grant, save_token}

pub record Command : Type 0 where
  pub code : String
  pub client_id : String
  pub client_secret : String
  pub basic_client_id : String
  pub basic_client_secret : String
  pub redirect_uri : String
  pub expire_secs : Option ℤ
  pub code_verifier : String

abbrev pub credentials : Command → ClientCredentials
credentials c = record {
  client_id = c.client_id;
  form_secret = c.client_secret;
  basic_client_id = c.basic_client_id;
  basic_secret = c.basic_client_secret;
}

-- consumeAuthCode
unfoldable pub consume_auth_code : String → M AuthCode
consume_auth_code code = do
  taken ← get_and_delete as_code (auth_code_key code)
  elim taken [
    | none ↦ raise (plain "auth code not found")
    | some ac ↦ when is_ok (validate ac) then pure ac else raise (plain "auth code not found")
  ]

abbrev nonce_of : Option String → String
nonce_of none = ""
nonce_of (some n) = n

-- issueTokens
issue_code_tokens : String → ℕ → AuthCode → User → M IssuedTokens
issue_code_tokens client_id expire_secs ac user = issue_tokens (record {
  user = user;
  client_id = client_id;
  nonce = nonce_of ac.nonce;
  scope = ac.scope;
  expire_secs = expire_secs;
  existing_grant_id = "";
})

-- A new grant is aligned to the token's expiry and saved.
unfoldable pub save_new_grant : Option Grant → Time → M (Unit {0})
save_new_grant none token_expiry = pure tt
save_new_grant (some g) token_expiry = save_grant (extend_to_cover g token_expiry)

-- saveRefreshToken
unfoldable pub save_refresh_token : String → String → IssuedTokens → M (Unit {0})
unfolding save_new_grant
save_refresh_token user_id client_id tokens = do
  rt ← new_refresh_token user_id client_id tokens
  save_new_grant tokens.new_grant rt.expires_at
  save_token rt

unfoldable pub redeem : Command → Client → AuthCode → M TokenResponse
unfolding issue_code_tokens
redeem c client ac = do
  raise_if (is_public client && not (is_some ac.code_challenge)) err_invalid_grant
  valid ← is_valid ac client.id c.redirect_uri c.code_verifier
  raise_if (not valid) err_invalid_grant
  user ← find_user_by_id ac.user_id
  let expire_secs = resolve_expiry_secs c.expire_secs
  tokens ← issue_code_tokens client.id expire_secs ac user
  save_refresh_token user.id client.id tokens
  pure (token_response tokens expire_secs)

unfoldable pub for_client : Command → Client → M TokenResponse
unfolding redeem
for_client c client = do
  raise_if (not (allows_grant client grant_authorization_code)) err_invalid_client
  taken ← attempt (consume_auth_code c.code)
  elim taken [ err e ↦ raise err_auth_code_not_found | ok ac ↦ redeem c client ac ]

-- Execute
unfoldable pub execute : Command → M TokenResponse
unfolding for_client
execute c = do
  who ← asks (λ env. authenticate env (credentials c))
  elim who [ err e ↦ raise err_invalid_client | ok client ↦ for_client c client ]
