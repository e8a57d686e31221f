-- ===== src/Entity/Token.antt =====
-- modules/auth/domain/entity/tokens.go
use hexagonal_backend.Common.{ℕ, ◌*◌, String, Bool, false, ◌||◌, none, some, if◌then◌else◌}
use hexagonal_backend.Common.Text.{is_empty, str_eq}
use hexagonal_backend.Common.Time.{hour, before, add}
use hexagonal_backend.Entity.Types.{IssuedTokens, RefreshToken}
use hexagonal_backend.World.Monad.{when◌then◌else◌, M, pure, asks, ◌>>=◌, now, new_uuid}

abbrev pub refresh_token_ttl : ℕ
refresh_token_ttl = 30 * 24 * hour

-- Hash
abbrev pub hash : String → M String
hash raw = asks (λ env. env.sha256_hex raw)

grant_or_new : String → M String
grant_or_new grant_id = when is_empty grant_id then new_uuid else pure grant_id

-- NewRefreshToken
unfoldable pub new_refresh_token : String → String → IssuedTokens → M RefreshToken
unfolding grant_or_new
new_refresh_token user_id client_id tokens = do
  t ← now
  grant_id ← grant_or_new tokens.grant_id
  token_id ← new_uuid
  hashed ← hash tokens.refresh_token
  pure (record {
    id = token_id;
    user_id = user_id;
    client_id = client_id;
    grant_id = grant_id;
    token_hash = hashed;
    scope = tokens.scope;
    device_id = "";
    authenticated_at = t;
    created_at = t;
    expires_at = add t refresh_token_ttl;
    revoked_at = none;
  })

-- Rotate
unfoldable pub rotate : RefreshToken → String → IssuedTokens → M RefreshToken
unfolding new_refresh_token
rotate rt user_id tokens = do
  n ← new_refresh_token user_id rt.client_id tokens
  pure (record n {
    authenticated_at = rt.authenticated_at;
    device_id = rt.device_id;
    grant_id = if is_empty rt.grant_id then n.grant_id else rt.grant_id;
  })

-- IssuedTo
unfoldable pub issued_to : RefreshToken → String → Bool
issued_to rt client_id = is_empty rt.client_id || str_eq rt.client_id client_id

-- RefreshToken.IsValid
unfoldable pub is_valid : RefreshToken → M Bool
is_valid rt = elim rt.revoked_at [
  | some _ ↦ pure false
  | none ↦ do t ← now; pure (before t rt.expires_at)
]
