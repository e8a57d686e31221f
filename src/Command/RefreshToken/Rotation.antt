-- ===== src/Command/RefreshToken/Rotation.antt =====
-- The rows after a rotation.
use hexagonal_backend.Common.{
  ◌+◌, ◌≡◌, ◌≢◌, refl, sym, ap, ◌∙◌, String, Bool, true, false, none, some, Option, Bool-cases, ◌⊎◌,
  inl, inr, List, [], ◌∷◌, arith, eq_iff,
}
use hexagonal_backend.Common.Text.{str_eq}
use hexagonal_backend.Common.Time.{Time}
use hexagonal_backend.Common.Result.{is_ok}
use hexagonal_backend.Entity.Types.{RefreshToken}
use hexagonal_backend.Env.{Env}
use hexagonal_backend.World.{World}
use hexagonal_backend.World.Stores.{
  find_row, upsert, save_token, revoke_token_by_hash, do_in_transaction,
}
use hexagonal_backend.World.Stores.Rows.{find_row-fits}
use hexagonal_backend.Command.RefreshToken.Extension.{check_and_extend_grant-tokens}
use hexagonal_backend.Command.RefreshToken.{
  rotate_rows, update_refresh_token, check_and_extend_grant,
}

abbrev pub with_hash : String → RefreshToken → Bool
with_hash hashed t = str_eq t.token_hash hashed

-- A revocation that succeeds found a token that was not revoked, and writes it back revoked.
pub record Revoked (hashed : String) (w v : World) : Type 0 where
  pub row : RefreshToken
  pub at : Time
  pub found : find_row (with_hash hashed) w.tokens ≡ some row
  pub live : row.revoked_at ≡ none
  pub written : v.tokens ≡ upsert (λ t. t.id) (record row { revoked_at = some at }) w.tokens

pub revoke-Revoked :
    (hashed : String) (env : Env) (w : World)
    → is_ok (revoke_token_by_hash hashed env w).0 ≡ true
    → Revoked hashed w (revoke_token_by_hash hashed env w).1
unfolding revoke_token_by_hash save_token
revoke-Revoked hashed env w h = go (find_row (with_hash hashed) w.tokens) refl
  where
    go :
        (o : Option RefreshToken)
        → find_row (with_hash hashed) w.tokens ≡ o
        → Revoked hashed w (revoke_token_by_hash hashed env w).1
    go none e = absurd (ground (arith, h, e))
    go (some rt) e = record {
      row = rt;
      at = env.time (w.ticks + 1);
      found = e;
      live = ground (arith, h, e);
      written = ground (arith, h, e);
    }

-- The row that a lookup finds by its hash, after it was written back under its own id.
find-own-upsert :
    (hashed : String) (row row' : RefreshToken) (rows : List RefreshToken)
    → row'.id ≡ row.id
    → row'.token_hash ≡ row.token_hash
    → find_row (with_hash hashed) rows ≡ some row
    → find_row (λ t. str_eq t.id row.id) rows ≡ some row
    → find_row (with_hash hashed) (upsert (λ t. t.id) row' rows) ≡ some row'
unfolding find_row upsert
find-own-upsert hashed row row' [] a b h k = absurd (ground (arith, h))
find-own-upsert hashed row row' (y ∷ rows) a b h k = ground (
  arith,
  a,
  b,
  h,
  k,
  eq_iff y.id row.id,
  eq_iff y.id row'.id,
  eq_iff row'.token_hash hashed,
  eq_iff y.token_hash hashed,
  eq_iff row.token_hash hashed,
  find_row-fits (with_hash hashed) (y ∷ rows) row h,
  find-own-upsert hashed row row' rows a b,
)

find-other-upsert :
    (hashed : String) (row new : RefreshToken) (rows : List RefreshToken)
    → new.id ≢ row.id
    → new.token_hash ≢ hashed
    → find_row (with_hash hashed) rows ≡ some row
    → find_row (with_hash hashed) (upsert (λ t. t.id) new rows) ≡ some row
unfolding find_row upsert
find-other-upsert hashed row new [] a b h = absurd (ground (arith, h))
find-other-upsert hashed row new (y ∷ rows) a b h = ground (
  arith,
  a,
  b,
  h,
  eq_iff y.id new.id,
  eq_iff new.token_hash hashed,
  eq_iff y.token_hash hashed,
  find-other-upsert hashed row new rows a b,
)

-- What a rotation that succeeds has done to the table of refresh tokens.
record Rotated (old new : RefreshToken) (w v : World) : Type 0 where
  pub row : RefreshToken
  pub at : Time
  pub found : find_row (with_hash old.token_hash) w.tokens ≡ some row
  pub live : row.revoked_at ≡ none
  pub written :
      v.tokens
      ≡ upsert (λ t. t.id) new (upsert (λ t. t.id) (record row { revoked_at = some at }) w.tokens)

save_token-tokens :
    (rt : RefreshToken) (env : Env) (w : World)
    → is_ok (save_token rt env w).0 ≡ true
    → (save_token rt env w).1.tokens ≡ upsert (λ t. t.id) rt w.tokens
unfolding save_token
save_token-tokens rt env w h = ground (arith, h)

rotate_rows-Rotated :
    (old new : RefreshToken) (env : Env) (w : World)
    → is_ok (rotate_rows old new env w).0 ≡ true
    → Rotated old new w (rotate_rows old new env w).1
unfolding rotate_rows
rotate_rows-Rotated old new env w h = record {
  row = r.row;
  at = r.at;
  found = ap (find_row (with_hash old.token_hash)) (sym checked) ∙ r.found;
  live = r.live;
  written =
      ground (arith, h, save_token-tokens new env x saved)
      ∙ ap (upsert (λ t. t.id) new)
          (r.written ∙ ap (upsert (λ t. t.id) (record r.row { revoked_at = some r.at })) checked);
}
  where
    u : World
    u = (check_and_extend_grant old.grant_id new.expires_at env w).1

    checked : u.tokens ≡ w.tokens
    checked = check_and_extend_grant-tokens old.grant_id new.expires_at env w

    r : Revoked old.token_hash u (revoke_token_by_hash old.token_hash env u).1
    r = revoke-Revoked old.token_hash env u (ground (arith, h))

    x : World
    x = (revoke_token_by_hash old.token_hash env u).1

    saved : is_ok (save_token new env x).0 ≡ true
    saved = ground (arith, h)

update-rotates :
    (old new : RefreshToken) (env : Env) (w : World)
    → is_ok (update_refresh_token old new env w).0 ≡ true
    → (is_ok (rotate_rows old new env w).0 ≡ true)
      × ((update_refresh_token old new env w).1 ≡ (rotate_rows old new env w).1)
unfolding update_refresh_token do_in_transaction
update-rotates old new env w h = ground (arith, h)

spent-refused :
    (old new : RefreshToken) (env : Env) (w : World) (row : RefreshToken) (at : Time)
    → find_row (with_hash old.token_hash) w.tokens ≡ some (record row { revoked_at = some at })
    → is_ok (update_refresh_token old new env w).0 ≡ false
spent-refused old new env w row at spent =
    go (Bool-cases (is_ok (update_refresh_token old new env w).0))
  where
    go :
        (is_ok (update_refresh_token old new env w).0 ≡ true)
          ⊎ (is_ok (update_refresh_token old new env w).0 ≡ false)
        → is_ok (update_refresh_token old new env w).0 ≡ false
    go (inr refused) = refused
    go (inl h) = absurd (ground (arith, spent, again.found, again.live))
      where
        again : Rotated old new w (rotate_rows old new env w).1
        again = rotate_rows-Rotated old new env w (update-rotates old new env w h).0

-- A refresh token is rotated at most once: after a rotation that succeeds, no rotation of the
-- same token succeeds, whatever the environment, if the token is the row that its hash and its id
-- find, and the new token has an id and a hash of its own.
pub rotation_single_use :
    (old new new' : RefreshToken) (env env' : Env) (w : World)
    → find_row (λ t. str_eq t.id old.id) w.tokens ≡ some old
    → find_row (with_hash old.token_hash) w.tokens ≡ some old
    → new.id ≢ old.id
    → new.token_hash ≢ old.token_hash
    → is_ok (update_refresh_token old new env w).0 ≡ true
    → is_ok (update_refresh_token old new' env' (update_refresh_token old new env w).1).0 ≡ false
rotation_single_use old new new' env env' w own found other_id other_hash h =
    spent-refused old new' env' v old done.at
      (ap (find_row (with_hash old.token_hash)) tokens ∙ still)
  where
    v : World
    v = (update_refresh_token old new env w).1

    did : (is_ok (rotate_rows old new env w).0 ≡ true) × (v ≡ (rotate_rows old new env w).1)
    did = update-rotates old new env w h

    done : Rotated old new w (rotate_rows old new env w).1
    done = rotate_rows-Rotated old new env w did.0

    revoked : RefreshToken
    revoked = record old { revoked_at = some done.at }

    same : done.row ≡ old
    same = cc (done.found, found)

    tokens : v.tokens ≡ upsert (λ t. t.id) new (upsert (λ t. t.id) revoked w.tokens)
    tokens =
        ap (λ x. x.tokens) did.1
        ∙ done.written
        ∙ ap {A = RefreshToken}
            (λ r.
              upsert (λ t. t.id) new
                (upsert (λ t. t.id) (record r { revoked_at = some done.at }) w.tokens))
            same

    still :
        find_row
          (with_hash old.token_hash)
          (upsert (λ t. t.id) new (upsert (λ t. t.id) revoked w.tokens))
        ≡ some revoked
    still =
        find-other-upsert old.token_hash revoked new (upsert (λ t. t.id) revoked w.tokens) other_id
          other_hash (find-own-upsert old.token_hash old revoked w.tokens refl refl found own)
