-- ===== src/Middleware/Revoked/Markers.antt =====
-- A marker in the cache turns the bearer tokens it is about away.
use hexagonal_backend.Common.{ℕ, ◌+◌, ◌-◌, ◌≡◌, refl, ◌∙◌, String, true, false, some, arith}
use hexagonal_backend.Common.Text.{is_empty, str_eq, str_eq_refl, prefixes_differ, str_eq_of_ne}
use hexagonal_backend.Common.Time.{Time, before, add}
use hexagonal_backend.Common.Result.{ok, is_ok}
use hexagonal_backend.Define.Keys.{blacklist_key, revoked_grant_key}
use hexagonal_backend.Define.Expiry.{revoked_grant_marker_ttl}
use hexagonal_backend.Service.Revocation.{mark_grant_revoked, blacklist_jti}
use hexagonal_backend.Env.{Env, Claims, healthy}
use hexagonal_backend.World.{World, CacheItem, flag}
use hexagonal_backend.World.Cache.{cache_has}
use hexagonal_backend.World.Map.{lookup, lookup-delete, lookup-insert}
use hexagonal_backend.Middleware.Revoked.{is_revoked, check_grant}

-- An item is there, and its time lies after every reading of the clock.
record Live (env : Env) (key : String) (w : World) : Type 0 where
  item : CacheItem
  until : Time
  stored : lookup key w.cache ≡ some item
  expires : item.expires_at ≡ some until
  early : (n : ℕ) → before (env.time n) until ≡ true

cache_has-Live :
    (key : String) (env : Env) (w : World)
    → Live env key w
    → (cache_has key (healthy env) w).0 ≡ ok true
unfolding cache_has
cache_has-Live key env w live = ground (arith, live.stored, live.expires, live.early w.ticks)

pub cache_has-answers :
    (key : String) (env : Env) (w : World) → is_ok (cache_has key (healthy env) w).0 ≡ true
unfolding cache_has
cache_has-answers key env w = ground arith

pub cache_has-others :
    (key other : String) (env : Env) (w : World)
    → str_eq key other ≡ false
    → lookup other (cache_has key (healthy env) w).1.cache ≡ lookup other w.cache
unfolding cache_has
cache_has-others key other env w differ = ground (arith, differ, lookup-delete key other w.cache)

keys_differ :
    (jti grant_id : String) → str_eq (blacklist_key jti) (revoked_grant_key grant_id) ≡ false
keys_differ jti grant_id =
    str_eq_of_ne _ _
      (prefixes_differ "b" "r" "lacklist:" "evoked_grant:" jti grant_id (omega arith))

jti-is_revoked :
    (claims : Claims) (env : Env) (w : World)
    → Live env (blacklist_key claims.id) w
    → (is_revoked claims (healthy env) w).0 ≡ ok true
unfolding is_revoked
jti-is_revoked claims env w live =
    ground (arith, cache_has-Live (blacklist_key claims.id) env w live)

grant-is_revoked :
    (claims : Claims) (env : Env) (w : World)
    → is_empty claims.grant_id ≡ false
    → Live env (revoked_grant_key claims.grant_id) w
    → (is_revoked claims (healthy env) w).0 ≡ ok true
unfolding is_revoked check_grant
grant-is_revoked claims env w named live = ground (
  arith,
  named,
  cache_has-answers (blacklist_key claims.id) env w,
  cache_has-Live (revoked_grant_key claims.grant_id) env u (record {
    item = live.item;
    until = live.until;
    stored =
        cache_has-others (blacklist_key claims.id) (revoked_grant_key claims.grant_id) env w
          (keys_differ claims.id claims.grant_id)
        ∙ live.stored;
    expires = live.expires;
    early = live.early;
  }),
)
  where
    u : World
    u = (cache_has (blacklist_key claims.id) (healthy env) w).1

-- From the marking of a grant on, while the clock has not passed the marker's time, every token
-- of the grant is revoked, where the cache answers.
pub marked_grant_is_revoked :
    (claims : Claims) (env env' : Env) (w : World)
    → is_empty claims.grant_id ≡ false
    → ((n : ℕ) → before (env'.time n) (add (env.time w.ticks) revoked_grant_marker_ttl) ≡ true)
    → (is_revoked claims (healthy env') (mark_grant_revoked claims.grant_id (healthy env) w).1).0
      ≡ ok true
unfolding mark_grant_revoked
marked_grant_is_revoked claims env env' w named early =
    grant-is_revoked claims env' (mark_grant_revoked claims.grant_id (healthy env) w).1 named
      (record {
        item = item;
        until = add (env.time w.ticks) revoked_grant_marker_ttl;
        stored = ground (
          arith,
          str_eq_refl (revoked_grant_key claims.grant_id),
          lookup-insert (revoked_grant_key claims.grant_id) (revoked_grant_key claims.grant_id) item
              w.cache,
        );
        expires = refl;
        early = early;
      })
  where
    item : CacheItem
    item = record {
      value = flag true;
      expires_at = some (add (env.time w.ticks) revoked_grant_marker_ttl);
    }

-- From the blacklisting of a token before its expiry on, while the clock has not passed the time
-- of the item in the cache, the token is revoked, where the cache answers.
pub blacklisted_is_revoked :
    (claims : Claims) (expires : Time) (env env' : Env) (w : World)
    → before (env.time w.ticks) expires ≡ true
    → ((n : ℕ)
        → before (env'.time n) (add (env.time (w.ticks + 1)) (expires - env.time w.ticks)) ≡ true)
    → (is_revoked claims (healthy env') (blacklist_jti claims.id expires (healthy env) w).1).0
      ≡ ok true
unfolding blacklist_jti
blacklisted_is_revoked claims expires env env' w left early =
    jti-is_revoked claims env' (blacklist_jti claims.id expires (healthy env) w).1 (record {
      item = item;
      until = add (env.time (w.ticks + 1)) (expires - env.time w.ticks);
      stored = ground (
        arith,
        left,
        str_eq_refl (blacklist_key claims.id),
        lookup-insert (blacklist_key claims.id) (blacklist_key claims.id) item w.cache,
      );
      expires = refl;
      early = early;
    })
  where
    item : CacheItem
    item = record {
      value = flag true;
      expires_at = some (add (env.time (w.ticks + 1)) (expires - env.time w.ticks));
    }
