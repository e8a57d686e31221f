-- ===== src/Query/Introspect.antt =====
-- modules/auth/application/query/introspect_token.go (RFC 7662).
pub mod Verdict
use hexagonal_backend.Common.{
  ℕ, String, Bool, true, false, not, ◌&&◌, ◌||◌, Option, none, some, leb, if◌then◌else◌,
}
use hexagonal_backend.Common.Text.{is_empty}
use hexagonal_backend.Common.Time.{Time, unix}
use hexagonal_backend.Common.Result.{Result, ok, err}
use hexagonal_backend.Define.Keys.{
  blacklist_key, revoked_grant_key, sessions_invalidated_key, as_number,
}
use hexagonal_backend.Define.Response.{ActiveToken, IntrospectResponse, inactive, active}
use hexagonal_backend.Entity.Client.{is_public}
use hexagonal_backend.Entity.Types.{Client}
use hexagonal_backend.Env.{Claims}
use hexagonal_backend.Errors.{err_invalid_client}
use hexagonal_backend.Service.Authenticator.{authenticate, ClientCredentials}
use hexagonal_backend.Service.Jwt.{parse_jwt}
use hexagonal_backend.World.Cache.{cache_has, cache_get}
use hexagonal_backend.World.Monad.{
  when◌then◌else◌, M, pure, raise, raise_if, asks, attempt, ◌>>=◌, ◌>>◌,
}

pub record Query : Type 0 where
  pub client_id : String
  pub client_secret : String
  pub basic_client_id : String
  pub basic_client_secret : String
  pub token : String
  pub token_type_hint : Option String

abbrev pub credentials : Query → ClientCredentials
credentials q = record {
  client_id = q.client_id;
  form_secret = q.client_secret;
  basic_client_id = q.basic_client_id;
  basic_secret = q.basic_client_secret;
}

abbrev confidential : Result Client → Bool
confidential (err _) = false
confidential (ok client) = not (is_public client)

-- authorizeCaller
unfoldable pub authorize_caller : Query → M (Unit {0})
authorize_caller q =
    when is_empty q.client_id && is_empty q.basic_client_id then raise err_invalid_client else (do
      allowed ← asks (λ env. confidential (authenticate env (credentials q)))
      raise_if (not allowed) err_invalid_client)

-- `err != nil || found`
unfoldable pub marked : String → M Bool
marked key = do r ← attempt (cache_has key); elim r [ err _ ↦ pure true | ok found ↦ pure found ]

-- The marker of the user's sessions against the time of issue, inclusive.
unfoldable pub sessions_marked : String → Time → M Bool
sessions_marked subject issued_at = do
  r ← attempt (cache_get as_number (sessions_invalidated_key subject))
  elim r [
    | err _ ↦ pure true
    | ok none ↦ pure false
    | ok (some invalidated_at) ↦ pure (leb (unix issued_at) invalidated_at)
  ]

abbrev unix_or_zero : Option Time → ℕ
unix_or_zero none = 0
unix_or_zero (some t) = unix t

abbrev pub describe : Claims → ActiveToken
describe claims = record {
  sub = claims.subject;
  issuer = claims.issuer;
  audience = claims.audience;
  scope = claims.scope;
  expires_at = unix_or_zero claims.expires_at;
  issued_at = unix_or_zero claims.issued_at;
  jwt_id = claims.id;
  token_type = "Bearer";
}

jti_denied : Claims → M Bool
jti_denied claims = when is_empty claims.id then pure false else marked (blacklist_key claims.id)

grant_denied : Claims → M Bool
grant_denied claims =
    when is_empty claims.grant_id then pure false else marked (revoked_grant_key claims.grant_id)

user_denied : Claims → M Bool
user_denied claims = elim claims.issued_at [
  | none ↦ pure false
  | some t ↦ sessions_marked claims.subject t
]

-- The three tests of Execute, each made if the one before it passes.
unfoldable pub denied : Claims → M Bool
unfolding jti_denied grant_denied user_denied
denied claims = do
  by_jti ← jti_denied claims
  when by_jti
      then pure true
      else (do by_grant ← grant_denied claims; when by_grant then pure true else user_denied claims)

judge : Claims → M IntrospectResponse
judge claims = do
  cached ← asks (λ env. env.has_cache)
  revoked ← when cached then denied claims else pure false
  pure (if revoked then inactive else active (describe claims))

-- Execute
unfoldable pub execute : Query → M IntrospectResponse
unfolding judge
execute q = do
  authorize_caller q
  parsed ← asks (λ env. parse_jwt env q.token)
  elim parsed [ err _ ↦ pure inactive | ok claims ↦ judge claims ]
