-- ===== src/Middleware/Revoked/Sessions.antt =====
-- The marker of a password reset turns the tokens away that were issued before it.
use hexagonal_backend.Common.{ℕ, ◌≡◌, ◌∙◌, String, true, false, some, leb, arith}
use hexagonal_backend.Common.Text.{str_eq, str_eq_refl, prefixes_differ, str_eq_of_ne}
use hexagonal_backend.Common.Time.{Time, before, add, unix}
use hexagonal_backend.Common.Result.{ok, is_ok}
use hexagonal_backend.Define.Expiry.{sessions_invalidation_ttl}
use hexagonal_backend.Define.Keys.{blacklist_key, revoked_grant_key, sessions_invalidated_key}
use hexagonal_backend.Env.{Env, Claims, healthy}
use hexagonal_backend.Service.Revocation.{mark_sessions_invalidated}
use hexagonal_backend.World.{World, CacheItem, number}
use hexagonal_backend.World.Cache.{cache_has, cache_get}
use hexagonal_backend.World.Map.{lookup, lookup-insert}
use hexagonal_backend.Middleware.Revoked.{is_revoked, check_grant, check_user}
use hexagonal_backend.Middleware.Revoked.Markers.{cache_has-answers, cache_has-others}

check_grant-answers :
    (claims : Claims) (env : Env) (w : World) → is_ok (check_grant claims (healthy env) w).0 ≡ true
unfolding check_grant
check_grant-answers claims env w =
    ground (arith, cache_has-answers (revoked_grant_key claims.grant_id) env w)

grant_key_differs :
    (claims : Claims)
    → str_eq (revoked_grant_key claims.grant_id) (sessions_invalidated_key claims.subject) ≡ false
grant_key_differs claims = str_eq_of_ne _ _ (
    prefixes_differ "r" "s" "evoked_grant:" "essions_invalidated:" claims.grant_id claims.subject
      (omega arith))

jti_key_differs :
    (claims : Claims)
    → str_eq (blacklist_key claims.id) (sessions_invalidated_key claims.subject) ≡ false
jti_key_differs claims = str_eq_of_ne _ _ (
    prefixes_differ "b" "s" "lacklist:" "essions_invalidated:" claims.id claims.subject
      (omega arith))

check_grant-others :
    (claims : Claims) (env : Env) (w : World)
    → lookup (sessions_invalidated_key claims.subject) (check_grant claims (healthy env) w).1.cache
      ≡ lookup (sessions_invalidated_key claims.subject) w.cache
unfolding check_grant
check_grant-others claims env w = ground (
  arith,
  cache_has-others (revoked_grant_key claims.grant_id) (sessions_invalidated_key claims.subject) env
      w (grant_key_differs claims),
)

check_user-marked :
    (claims : Claims) (issued at until : Time) (env : Env) (w : World)
    → claims.issued_at ≡ some issued
    → leb (unix issued) (unix at) ≡ true
    → before (env.time w.ticks) until ≡ true
    → lookup (sessions_invalidated_key claims.subject) w.cache
      ≡ some (record { value = number (unix at); expires_at = some until })
    → (check_user claims (healthy env) w).0 ≡ ok true
unfolding check_user cache_get
check_user-marked claims issued at until env w signed old early stored =
    ground (arith, signed, old, early, stored)

-- From the marking of a user's sessions on, while the clock has not passed the marker's time,
-- every token of the user that was issued up to the second of the marking is revoked, where the
-- cache answers.
pub marked_sessions_are_revoked :
    (claims : Claims) (issued at : Time) (env env' : Env) (w : World)
    → claims.issued_at ≡ some issued
    → leb (unix issued) (unix at) ≡ true
    → ((n : ℕ) → before (env'.time n) (add (env.time w.ticks) sessions_invalidation_ttl) ≡ true)
    → (is_revoked claims
        (healthy env')
        (mark_sessions_invalidated claims.subject at (healthy env) w).1).0
      ≡ ok true
unfolding is_revoked mark_sessions_invalidated
marked_sessions_are_revoked claims issued at env env' w signed old early = ground (
  arith,
  cache_has-answers (blacklist_key claims.id) env' v,
  check_grant-answers claims env' u,
  check_user-marked claims issued at (add (env.time w.ticks) sessions_invalidation_ttl) env'
      (check_grant claims (healthy env') u).1 signed old
      (early (check_grant claims (healthy env') u).1.ticks)
      (check_grant-others claims env' u
        ∙ cache_has-others (blacklist_key claims.id) key env' v (jti_key_differs claims)
        ∙ stored),
)
  where
    key : String
    key = sessions_invalidated_key claims.subject

    v : World
    v = (mark_sessions_invalidated claims.subject at (healthy env) w).1

    u : World
    u = (cache_has (blacklist_key claims.id) (healthy env') v).1

    item : CacheItem
    item = record {
      value = number (unix at);
      expires_at = some (add (env.time w.ticks) sessions_invalidation_ttl);
    }

    stored : lookup key v.cache ≡ some item
    stored = ground (arith, str_eq_refl key, lookup-insert key key item w.cache)
