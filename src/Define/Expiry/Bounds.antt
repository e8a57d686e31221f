-- ===== src/Define/Expiry/Bounds.antt =====
-- The lifetime of an access token, against the markers that revoke it.
use hexagonal_backend.Common.{zero, suc, ◌*◌, ◌≤◌, ◌<◌, Option, none, some, arith}
use hexagonal_backend.Common.Int.{ℤ, pos, negsuc}
use hexagonal_backend.Common.Time.{second}
use hexagonal_backend.Define.Expiry.{
  resolve_expiry_secs, revoked_grant_marker_ttl, sessions_invalidation_ttl,
}

-- Whatever lifetime a client asks for, the token lives for at least a second, and neither the
-- grant marker nor the sessions marker expires before it.
pub resolve_expiry_bounds :
    (requested : Option ℤ)
    → (0 < resolve_expiry_secs requested)
      × (resolve_expiry_secs requested * second ≤ revoked_grant_marker_ttl)
      × (resolve_expiry_secs requested * second ≤ sessions_invalidation_ttl)
unfolding resolve_expiry_secs
resolve_expiry_bounds none = omega arith
resolve_expiry_bounds (some (negsuc n)) = omega arith
resolve_expiry_bounds (some (pos zero)) = omega arith
resolve_expiry_bounds (some (pos (suc n))) = omega arith
