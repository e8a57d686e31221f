-- ===== src/Service/Revocation.antt =====
-- modules/auth/application/service/revocation_cache.go: the three markers.
use hexagonal_backend.Common.{◌-◌, String, true, some}
use hexagonal_backend.Common.Time.{Time, unix}
use hexagonal_backend.Define.Expiry.{revoked_grant_marker_ttl, sessions_invalidation_ttl}
use hexagonal_backend.Define.Keys.{blacklist_key, revoked_grant_key, sessions_invalidated_key}
use hexagonal_backend.World.{flag, number}
use hexagonal_backend.World.Cache.{cache_set}
use hexagonal_backend.World.Monad.{M, ◌>>=◌, now}

-- BlacklistJTI. A duration below zero is like zero to the cache: no expiry.
unfoldable pub blacklist_jti : String → Time → M (Unit {0})
unfolding cache_set
blacklist_jti jti expires_at = do
  t ← now
  cache_set (blacklist_key jti) (flag true) (some (expires_at - t))

-- MarkGrantRevoked
unfoldable pub mark_grant_revoked : String → M (Unit {0})
unfolding cache_set
mark_grant_revoked grant_id =
    cache_set (revoked_grant_key grant_id) (flag true) (some revoked_grant_marker_ttl)

-- MarkSessionsInvalidated
unfoldable pub mark_sessions_invalidated : String → Time → M (Unit {0})
unfolding cache_set
mark_sessions_invalidated user_id at =
    cache_set (sessions_invalidated_key user_id) (number (unix at)) (some sessions_invalidation_ttl)
