-- ===== src/Service/Jwt.antt =====
-- infrastructure/jwt/jwt_service.go around the JWT library, and Claims.IsExpired of core/jwt.
use hexagonal_backend.Common.{
  ℕ, ◌*◌, String, Bool, true, not, Option, none, some, [], ◌∷◌, if◌then◌else◌, contains,
}
use hexagonal_backend.Common.Text.{str_eq}
use hexagonal_backend.Common.Time.{Time, second, after, add, unix}
use hexagonal_backend.Common.Result.{Result, ok, err}
use hexagonal_backend.Env.{Env, Claims, SignedClaims, IdTokenArgs}
use hexagonal_backend.Errors.{plain, backend}
use hexagonal_backend.World.Monad.{M, pure, raise, asks, ◌>>=◌, now, new_uuid, random_token}

abbrev pub access_token_audience : String
access_token_audience = "APP_ID"

abbrev pub token_use_access : String
token_use_access = "access"

abbrev pub or_unsigned : Option String → M String
or_unsigned none = raise backend
or_unsigned (some t) = pure t

-- The claims that GenAccessToken signs; the wire holds whole seconds.
abbrev pub access_claims : Env → String → String → String → ℕ → Time → String → SignedClaims
access_claims env user_id scope grant_id expire_secs t jti = record {
  claims = record {
    subject = user_id;
    scope = scope;
    issuer = env.issuer;
    audience = access_token_audience ∷ [];
    id = jti;
    expires_at = some (unix (add t (second * expire_secs)) * second);
    issued_at = some (unix t * second);
    grant_id = grant_id;
  };
  token_use = token_use_access;
}

-- GenAccessToken
unfoldable pub gen_access_token : String → String → String → ℕ → M String
gen_access_token user_id scope grant_id expire_secs = do
  t ← now
  jti ← new_uuid
  signed ←
      asks (λ env. env.sign_access (access_claims env user_id scope grant_id expire_secs t jti))
  or_unsigned signed

-- GenRefreshToken
abbrev pub gen_refresh_token : String → M String
gen_refresh_token user_id = random_token

-- GenIDToken
unfoldable pub gen_id_token : IdTokenArgs → M String
gen_id_token args = do t ← now; signed ← asks (λ env. env.sign_id args t); or_unsigned signed

-- The tests of ParseJWT on verified claims.
check_claims : Env → SignedClaims → Result Claims
check_claims env s =
    if not (str_eq s.claims.issuer env.issuer)
    then err (plain "invalid issuer")
    else if not (contains s.claims.audience access_token_audience)
    then err (plain "invalid audience")
    else if not (str_eq s.token_use token_use_access)
    then err (plain "not an access token")
    else ok s.claims

-- ParseJWT
unfoldable pub parse_jwt : Env → String → Result Claims
unfolding check_claims
parse_jwt env token = elim (env.verify token) [ none ↦ err backend | some s ↦ check_claims env s ]

-- Claims.IsExpired
unfoldable pub is_expired : Claims → M Bool
is_expired claims = elim claims.expires_at [
  | none ↦ pure true
  | some expires ↦ do t ← now; pure (after t expires)
]
