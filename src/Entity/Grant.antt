-- ===== src/Entity/Grant.antt =====
-- modules/auth/domain/entity/grant.go
use hexagonal_backend.Common.{ℕ, ◌+◌, String, Bool, false, none, some}
use hexagonal_backend.Common.Time.{Time, minute, before, add}
use hexagonal_backend.Entity.Token.{refresh_token_ttl}
use hexagonal_backend.Entity.Types.{Grant}
use hexagonal_backend.World.Monad.{M, pure, ◌>>=◌, now, new_uuid}

abbrev pub grant_expiry_margin : ℕ
grant_expiry_margin = minute

-- NewGrant
unfoldable pub new_grant : String → String → M Grant
new_grant user_id client_id = do
  t ← now
  grant_id ← new_uuid
  pure (record {
    id = grant_id;
    user_id = user_id;
    client_id = client_id;
    device_id = "";
    authenticated_at = t;
    created_at = t;
    expires_at = add t (refresh_token_ttl + grant_expiry_margin);
    revoked_at = none;
  })

-- Grant.IsValid
unfoldable pub is_valid : Grant → M Bool
is_valid g = elim g.revoked_at [
  | some _ ↦ pure false
  | none ↦ do t ← now; pure (before t g.expires_at)
]

-- ExtendToCover
unfoldable pub extend_to_cover : Grant → Time → Grant
extend_to_cover g token_expiry = record g { expires_at = add token_expiry grant_expiry_margin }
