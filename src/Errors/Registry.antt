-- ===== src/Errors/Registry.antt =====
-- modules/auth/errors/code_registry.go: how an error code is shown over HTTP.
use hexagonal_backend.Common.{
  ℕ, String, Bool, false, ◌||◌, List, [], ◌∷◌, Option, none, some, ◌==◌, if◌then◌else◌,
}
use hexagonal_backend.Common.Text.{is_empty}
use hexagonal_backend.Errors.{
  ErrCode, invalid_arguments, invalid_token, invalid_refresh_token, gen_rand_failed,
  invalid_email_or_password, gen_token_failed, gen_refresh_token_failed, update_profile_failed,
  email_duplicated, create_user_failed, auth_code_not_found, unsupported_response_type,
  unsupported_grant_type, password_reset_token_expired, password_reset_token_not_found,
  weak_password, max_login_attempts_exceeded, auth_code_create_failed, unsupported_scope,
  invalid_auth_request, reset_password_failed, invalid_client, invalid_grant,
}

pub record CodeInfo : Type 0 where
  pub http_status : ℕ
  pub oauth2 : String

abbrev info : ℕ → String → CodeInfo
info status code = record { http_status = status; oauth2 = code }

abbrev pub code_registry : List (ErrCode × CodeInfo)
code_registry =
    (invalid_arguments, info 400 "invalid_request")
    ∷ (invalid_auth_request, info 400 "invalid_request")
    ∷ (weak_password, info 400 "invalid_request")
    ∷ (unsupported_response_type, info 400 "unsupported_response_type")
    ∷ (unsupported_grant_type, info 400 "unsupported_grant_type")
    ∷ (unsupported_scope, info 400 "invalid_scope")
    ∷ (max_login_attempts_exceeded, info 400 "invalid_grant")
    ∷ (auth_code_not_found, info 400 "invalid_grant")
    ∷ (invalid_grant, info 400 "invalid_grant")
    ∷ (invalid_token, info 401 "invalid_grant")
    ∷ (invalid_refresh_token, info 401 "invalid_grant")
    ∷ (invalid_email_or_password, info 401 "invalid_grant")
    ∷ (invalid_client, info 401 "invalid_client")
    ∷ (password_reset_token_expired, info 401 "invalid_grant")
    ∷ (password_reset_token_not_found, info 404 "invalid_request")
    ∷ (email_duplicated, info 409 "invalid_request")
    ∷ []

abbrev pub server_error_codes : List ErrCode
server_error_codes =
    gen_rand_failed ∷ gen_token_failed ∷ gen_refresh_token_failed ∷ auth_code_create_failed
    ∷ create_user_failed ∷ update_profile_failed ∷ reset_password_failed ∷ []

unfoldable pub lookup : List (ErrCode × CodeInfo) → ErrCode → Option CodeInfo
lookup [] code = none
lookup ((c, i) ∷ rest) code = if c == code then some i else lookup rest code

unfoldable pub member : List ErrCode → ErrCode → Bool
member [] code = false
member (c ∷ rest) code = (c == code) || member rest code

unfoldable pub status_of : Option CodeInfo → ℕ
status_of none = 500
status_of (some i) = i.http_status

-- HTTPStatusFor
unfoldable pub http_status_for : ErrCode → ℕ
unfolding lookup status_of
http_status_for code = status_of (lookup code_registry code)

abbrev pub fallback_text : Bool → String
fallback_text is_server_error = if is_server_error then "server_error" else "invalid_request"

unfoldable pub fallback_code : ErrCode → String
unfolding member
fallback_code code = fallback_text (member server_error_codes code)

unfoldable pub shown_as : ErrCode → Option CodeInfo → String
unfolding fallback_code
shown_as code none = fallback_code code
shown_as code (some i) = if is_empty i.oauth2 then fallback_code code else i.oauth2

-- OAuth2CodeFor
unfoldable pub oauth2_code_for : ErrCode → String
unfolding lookup shown_as
oauth2_code_for code = shown_as code (lookup code_registry code)
