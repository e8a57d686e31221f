-- ===== src/Define/Expiry.antt =====
-- modules/auth/application/define/token_expiration.go
pub mod Bounds
use Prim.Native.Nat.{min}
use hexagonal_backend.Common.{ℕ, zero, suc, ◌*◌, Option, none, some}
use hexagonal_backend.Common.Int.{ℤ, pos, negsuc}
use hexagonal_backend.Common.Time.{second}

abbrev pub default_expiry_secs : ℕ
default_expiry_secs = 900

abbrev pub max_token_expiry_secs : ℕ
max_token_expiry_secs = 86400

abbrev pub revoked_grant_marker_ttl : ℕ
revoked_grant_marker_ttl = max_token_expiry_secs * second

abbrev pub sessions_invalidation_ttl : ℕ
sessions_invalidation_ttl = max_token_expiry_secs * second

-- ResolveExpirySecs
unfoldable pub resolve_expiry_secs : Option ℤ → ℕ
resolve_expiry_secs none = default_expiry_secs
resolve_expiry_secs (some (negsuc n)) = default_expiry_secs
resolve_expiry_secs (some (pos zero)) = default_expiry_secs
resolve_expiry_secs (some (pos (suc n))) = min (suc n) max_token_expiry_secs
