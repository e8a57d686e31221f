-- ===== src/Command/RefreshToken/Replay.antt =====
-- What a refresh token that is presented a second time does to its family.
use hexagonal_backend.Common.{
  ℕ, ◌+◌, String, ◌≡◌, refl, Bool, true, false, Option, none, some, is_some, Option-cases, inl, inr,
  arith, eq_iff,
}
use hexagonal_backend.Common.Text.{is_empty, str_eq, str_eq_refl}
use hexagonal_backend.Common.Time.{Time, add}
use hexagonal_backend.Common.Result.{ok, err}
use hexagonal_backend.Define.Expiry.{revoked_grant_marker_ttl}
use hexagonal_backend.Define.Keys.{revoked_grant_key}
use hexagonal_backend.Entity.Types.{RefreshToken, Grant, Client}
use hexagonal_backend.Env.{Env, healthy}
use hexagonal_backend.Errors.{err_invalid_refresh_token}
use hexagonal_backend.World.{World, CacheItem, flag}
use hexagonal_backend.World.Map.{lookup, lookup-insert}
use hexagonal_backend.World.Stores.{
  find_token_by_hash, find_row, revoke_rows, revoke_all_for_grant, revoke_grant_row,
}
use hexagonal_backend.World.Stores.Rows.{
  all_revoked, of_grant, revoke_rows-all_revoked, find_row-fits, find_row-upsert,
}
use hexagonal_backend.Service.Revocation.{mark_grant_revoked}
use hexagonal_backend.Service.Authenticator.{authenticate}
use hexagonal_backend.Entity.Client.{allows_grant, grant_refresh_token}
use hexagonal_backend.Command.RefreshToken.{
  Command, credentials, execute, for_client, find_active_refresh_token, check_active, revoke_family,
  revoke_grant, write_revoked_grant_marker,
}

-- A grant that is there is revoked.
abbrev pub grant_revoked : Option Grant → Bool
grant_revoked none = true
grant_revoked (some g) = is_some g.revoked_at

revoke_grant_lem :
    (g : String) (env0 : Env) (w : World)
    → let v = (revoke_grant g (healthy env0) w).1 in
      (grant_revoked (find_row (λ x. str_eq x.id g) v.grants) ≡ true) × (v.tokens ≡ w.tokens)
unfolding revoke_grant revoke_grant_row
revoke_grant_lem g env0 w = go (find_row (λ x. str_eq x.id g) w.grants) refl
  where
    v : World
    v = (revoke_grant g (healthy env0) w).1

    go :
        (r : Option Grant)
        → find_row (λ x. str_eq x.id g) w.grants ≡ r
        → (grant_revoked (find_row (λ x. str_eq x.id g) v.grants) ≡ true) × (v.tokens ≡ w.tokens)
    go none e = ground (arith, e)
    go (some x) e = elim (Option-cases x.revoked_at) [
      | inl h ↦ ground (
        arith,
        e,
        h,
        find_row-upsert (λ y. y.id) (record x { revoked_at = some (env0.time w.ticks) }) w.grants,
        find_row-fits (λ y. str_eq y.id g) w.grants x e,
        eq_iff x.id g,
      )
      | inr (t, h) ↦ ground (arith, e, h)
    ]

-- Nothing of the grant can be used again: no refresh token, no row of the grant, and the marker
-- that the bearer tokens are checked against stands in the cache.
pub record FamilyRevoked (env : Env) (grant_id : String) (w : World) : Type 0 where
  pub tokens_revoked : all_revoked (of_grant grant_id) w.tokens ≡ true
  pub row_revoked : grant_revoked (find_row (λ g. str_eq g.id grant_id) w.grants) ≡ true
  pub marked_until : ℕ
  pub marker :
      lookup (revoked_grant_key grant_id) w.cache
      ≡ some (record {
        value = flag true;
        expires_at = some (add (env.time marked_until) revoked_grant_marker_ttl);
      })

revoke_family_lem :
    (rt : RefreshToken) (env : Env) (w : World)
    → is_empty rt.grant_id ≡ false
    → FamilyRevoked env rt.grant_id (revoke_family rt (healthy env) w).1
unfolding revoke_family write_revoked_grant_marker revoke_all_for_grant mark_grant_revoked
revoke_family_lem rt env w named = record {
  tokens_revoked =
      ground (arith, named, revoke_rows-all_revoked (healthy env) rt.grant_id u.ticks u.tokens);
  row_revoked = ground (arith, named, (revoke_grant_lem rt.grant_id env w).0);
  marked_until = tick;
  marker = ground (arith, named, lookup-insert key key item u.cache, str_eq_refl key);
}
  where
    u : World
    u = (revoke_grant rt.grant_id (healthy env) w).1

    tick : ℕ
    tick = (revoke_rows (healthy env) (of_grant rt.grant_id) u.ticks u.tokens).1

    key : String
    key = revoked_grant_key rt.grant_id

    item : CacheItem
    item = record {
      value = flag true;
      expires_at = some (add (env.time tick) revoked_grant_marker_ttl);
    }

find_token_by_hash_lem :
    (hashed : String) (rt : RefreshToken) (env : Env) (w : World)
    → find_row (λ t. str_eq t.token_hash hashed) w.tokens ≡ some rt
    → find_token_by_hash hashed (healthy env) w ≡ (ok rt, record w { calls = w.calls + 1 })
unfolding find_token_by_hash
find_token_by_hash_lem hashed rt env w found = rw found refl

revoke_family-ok : (rt : RefreshToken) (env : Env) (w : World) → (revoke_family rt env w).0 ≡ ok tt
unfolding revoke_family write_revoked_grant_marker
revoke_family-ok rt env w = ground arith

check_active-revoked :
    (rt : RefreshToken) (at : Time) (env : Env) (w : World)
    → rt.revoked_at ≡ some at
    → check_active rt env w ≡ (err err_invalid_refresh_token, (revoke_family rt env w).1)
unfolding check_active
check_active-revoked rt at env w spent = ground (arith, spent, revoke_family-ok rt env w)

find_active-revoked :
    (raw : String) (rt : RefreshToken) (at : Time) (env : Env) (w : World)
    → find_row (λ t. str_eq t.token_hash (env.sha256_hex raw)) w.tokens ≡ some rt
    → rt.revoked_at ≡ some at
    → find_active_refresh_token raw (healthy env) w ≡ (
      err err_invalid_refresh_token,
      (revoke_family rt (healthy env) (record w { calls = w.calls + 1 })).1,
    )
unfolding find_active_refresh_token find_token_by_hash revoke_family
find_active-revoked raw rt at env w found spent =
    rw (find_token_by_hash_lem (env.sha256_hex raw) rt env w found)
      (check_active-revoked rt at (healthy env) (record w { calls = w.calls + 1 }) spent)

-- A revoked refresh token that is presented again is refused as invalid, and where the stores
-- answer, its whole family is revoked: every token of its grant, the grant, and its access tokens.
pub replay_revokes_family :
    (raw : String) (rt : RefreshToken) (at : Time) (env : Env) (w : World)
    → find_row (λ t. str_eq t.token_hash (env.sha256_hex raw)) w.tokens ≡ some rt
    → rt.revoked_at ≡ some at
    → is_empty rt.grant_id ≡ false
    → let (r, v) = find_active_refresh_token raw (healthy env) w in
      (r ≡ err err_invalid_refresh_token) × FamilyRevoked env rt.grant_id v
replay_revokes_family raw rt at env w found spent named =
    rw (find_active-revoked raw rt at env w found spent)
      (refl, revoke_family_lem rt env (record w { calls = w.calls + 1 }) named)

-- An authenticated client that may refresh and presents a revoked token of a grant gets the error
-- of an invalid token, and where the stores answer, every refresh token of the grant and the
-- grant are revoked and the grant's marker is in the cache.
pub refresh_replay :
    (c : Command) (client : Client) (rt : RefreshToken) (at : Time) (env : Env) (w : World)
    → authenticate (healthy env) (credentials c) ≡ ok client
    → allows_grant client grant_refresh_token ≡ true
    → find_row (λ t. str_eq t.token_hash (env.sha256_hex c.refresh_token)) w.tokens ≡ some rt
    → rt.revoked_at ≡ some at
    → is_empty rt.grant_id ≡ false
    → let (r, v) = execute c (healthy env) w in
      (r ≡ err err_invalid_refresh_token) × FamilyRevoked env rt.grant_id v
unfolding execute for_client
refresh_replay c client rt at env w who allowed found spent named =
    rw whole (refl, (replay_revokes_family c.refresh_token rt at env w found spent named).1)
  where
    whole : execute c (healthy env) w ≡ (
      err err_invalid_refresh_token,
      (find_active_refresh_token c.refresh_token (healthy env) w).1,
    )
    whole =
        ground (arith, who, allowed, find_active-revoked c.refresh_token rt at env w found spent)
