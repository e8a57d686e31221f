-- ===== src/Define/Keys.antt =====
-- modules/auth/application/define/cache_keys.go, the key of middleware/rate_limit.go, and how each
-- kind of cache value is read back.
use hexagonal_backend.Common.{ℕ, String, Option, none, some}
use hexagonal_backend.Common.Text.{with_prefix}
use hexagonal_backend.Entity.Types.{AuthorizeRequest, AuthCode}
use hexagonal_backend.World.{CacheValue, request, code, number}

abbrev pub authorize_request_key : String → String
authorize_request_key id = with_prefix "auth:request:" id

abbrev pub auth_code_key : String → String
auth_code_key raw = with_prefix "auth:code:" raw

abbrev pub forgot_password_rate_key : String → String
forgot_password_rate_key digest = with_prefix "pwreset:rl:" digest

-- BlacklistKey
abbrev pub blacklist_key : String → String
blacklist_key jti = with_prefix "blacklist:" jti

-- RevokedGrantKey
abbrev pub revoked_grant_key : String → String
revoked_grant_key grant_id = with_prefix "revoked_grant:" grant_id

-- SessionsInvalidatedKey
abbrev pub sessions_invalidated_key : String → String
sessions_invalidated_key user_id = with_prefix "sessions_invalidated:" user_id

abbrev pub rate_limit_key : String → String
rate_limit_key ip = with_prefix "ratelimit:" ip

abbrev pub as_request : CacheValue → Option AuthorizeRequest
as_request (request r) = some r
as_request _ = none

abbrev pub as_code : CacheValue → Option AuthCode
as_code (code c) = some c
as_code _ = none

abbrev pub as_number : CacheValue → Option ℕ
as_number (number n) = some n
as_number _ = none
