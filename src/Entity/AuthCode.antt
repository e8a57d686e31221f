-- ===== src/Entity/AuthCode.antt =====
-- modules/auth/domain/entity/auth_code.go. AuthCode has no validator tags, so `validate` is the
-- scope test alone.
use hexagonal_backend.Common.{
  ℕ, ◌*◌, String, Bool, false, not, ◌&&◌, Option, none, some, if◌then◌else◌, is_nil,
}
use hexagonal_backend.Common.Text.{is_empty, str_eq}
use hexagonal_backend.Common.Time.{minute, after, add}
use hexagonal_backend.Common.Result.{Result, fail_if, is_ok}
use hexagonal_backend.Entity.AuthRequest.{code_challenge_method_s256}
use hexagonal_backend.Entity.Types.{AuthCode, AuthCodeArgs}
use hexagonal_backend.Env.{Env}
use hexagonal_backend.Errors.{plain, panic}
use hexagonal_backend.World.Monad.{
  when◌then◌else◌, M, pure, raise, asks, ◌>>=◌, ◌>>◌, now, random_token, lift,
}

abbrev pub auth_code_ttl : ℕ
auth_code_ttl = 5 * minute

-- AuthCode.Validate
unfoldable pub validate : AuthCode → Result (Unit {0})
validate a = fail_if (is_nil a.scope) (plain "scope is required")

-- NewAuthCode
unfoldable pub new_auth_code : AuthCodeArgs → M AuthCode
unfolding validate
new_auth_code args = do
  code ← random_token
  t ← now
  let a : AuthCode = record {
    code = code;
    user_id = args.user_id;
    client_id = some args.client_id;
    redirect_uri = args.redirect_uri;
    scope = args.scope;
    nonce = args.nonce;
    code_challenge = args.code_challenge;
    code_challenge_method = args.code_challenge_method;
    expires_at = add t auth_code_ttl;
  }
  lift (validate a)
  pure a

-- IsExpired
unfoldable pub is_expired : AuthCode → M Bool
is_expired a = do t ← now; pure (after t a.expires_at)

-- matchesClient: a nil client id is a nil dereference
unfoldable pub matches_client : AuthCode → String → M Bool
matches_client a client_id = elim a.client_id [
  | none ↦ raise panic
  | some c ↦ pure (str_eq c client_id)
]

-- matchesRedirectURI
unfoldable pub matches_redirect_uri : AuthCode → String → Bool
matches_redirect_uri a redirect_uri = str_eq a.redirect_uri redirect_uri

abbrev method_or_default : Option String → String
method_or_default none = code_challenge_method_s256
method_or_default (some m) = m

verify_challenge : Env → String → String → String → Result (Unit {0})
verify_challenge env method challenge verifier =
    if is_empty verifier
    then Result.err (plain "code_verifier required")
    else if not (str_eq method code_challenge_method_s256)
    then Result.err (plain "unsupported code_challenge_method")
    else if str_eq (env.sha256_base64 verifier) challenge
    then Result.ok tt
    else Result.err (plain "code_verifier mismatch")

-- verifyCodeVerifier
unfoldable pub verify_code_verifier : Env → AuthCode → String → Result (Unit {0})
unfolding verify_challenge
verify_code_verifier env a verifier = elim a.code_challenge [
  | none ↦ Result.ok tt
  | some c ↦ verify_challenge env (method_or_default a.code_challenge_method) c verifier
]

-- AuthCode.IsValid, its tests in order
unfoldable pub is_valid : AuthCode → String → String → String → M Bool
unfolding is_expired matches_client matches_redirect_uri verify_code_verifier
is_valid a client_id redirect_uri verifier = do
  expired ← is_expired a
  when expired then pure false else (do
    same_client ← matches_client a client_id
    verified ← asks (λ env. is_ok (verify_code_verifier env a verifier))
    pure (same_client && matches_redirect_uri a redirect_uri && verified))
