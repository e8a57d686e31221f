-- ===== src/Middleware/Bearer.antt =====
-- handler/web/middleware/auth.go: the bearer token of a request.
use Prim.Native.String.{len, slice}
use hexagonal_backend.Common.{ℕ, String, not, ◌||◌, Option, none, some, leb, if◌then◌else◌}
use hexagonal_backend.Common.Text.{is_empty}
use hexagonal_backend.Common.Result.{ok, err}
use hexagonal_backend.Env.{Env, Claims}
use hexagonal_backend.Service.Jwt.{parse_jwt}
use hexagonal_backend.World.Monad.{when◌then◌else◌, M, pure, asks, attempt, ◌>>=◌}
use hexagonal_backend.Middleware.Revoked.{is_revoked}

abbrev pub prefix_len : ℕ
prefix_len = 7

-- extractBearerToken
unfoldable pub extract_bearer_token : Env → String → Option String
extract_bearer_token env header =
    if leb (len header) prefix_len || not (env.equal_fold (slice header 0 prefix_len) "bearer ")
    then none
    else (let token = env.trim_space (slice header prefix_len (len header)) in
        if is_empty token then none else some token)

-- The identity that a verified request carries: the claims and the token itself.
unfoldable pub check_bearer : Claims → String → M (Option (Claims × String))
check_bearer claims token = when is_empty claims.id then pure none else (do
  r ← attempt (is_revoked claims)
  elim r [ err _ ↦ pure none | ok revoked ↦ pure (if revoked then none else some (claims, token)) ])

unfoldable pub check_token : String → M (Option (Claims × String))
unfolding check_bearer
check_token token = do
  parsed ← asks (λ env. parse_jwt env token)
  elim parsed [ err _ ↦ pure none | ok claims ↦ check_bearer claims token ]

-- verifyBearer, with the checker that the router wires in
unfoldable pub verify_bearer : String → M (Option (Claims × String))
unfolding check_token
verify_bearer header = do
  extracted ← asks (λ env. extract_bearer_token env header)
  elim extracted [ none ↦ pure none | some token ↦ check_token token ]
