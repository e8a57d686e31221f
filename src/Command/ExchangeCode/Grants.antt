-- ===== src/Command/ExchangeCode/Grants.antt =====
-- The grant that is saved with a refresh token.
use hexagonal_backend.Common.{◌≡◌, refl, String, false, none, some, arith}
use hexagonal_backend.Common.Text.{is_empty, str_eq}
use hexagonal_backend.Common.Time.{add}
use hexagonal_backend.Common.Result.{ok}
use hexagonal_backend.Entity.Grant.{extend_to_cover, grant_expiry_margin}
use hexagonal_backend.Entity.Token.{new_refresh_token, refresh_token_ttl}
use hexagonal_backend.Entity.Types.{IssuedTokens, RefreshToken, Grant}
use hexagonal_backend.Env.{Env, healthy}
use hexagonal_backend.World.{World}
use hexagonal_backend.World.Stores.{find_row, save_token, save_grant}
use hexagonal_backend.World.Stores.Rows.{find_row-upsert}
use hexagonal_backend.Command.ExchangeCode.{save_refresh_token, save_new_grant}

-- Where the stores answer, a refresh token issued with a new grant is saved with it: the saved
-- token belongs to the grant that the answer names, and the saved grant outlives the token by the
-- margin, whatever the clock read for each of them.
pub save_refresh_token_covers :
    (user_id client_id : String) (tokens : IssuedTokens) (g : Grant) (env : Env) (w : World)
    → tokens.new_grant ≡ some g
    → is_empty tokens.grant_id ≡ false
    → let (rt, _) = new_refresh_token user_id client_id tokens (healthy env) w in
      let v = (save_refresh_token user_id client_id tokens (healthy env) w).1 in
      (t : RefreshToken) × (rt ≡ ok t)
      × (t.grant_id ≡ tokens.grant_id)
      × (find_row (λ x. str_eq x.id t.id) v.tokens ≡ some t)
      × (find_row (λ x. str_eq x.id g.id) v.grants
          ≡ some (record g { expires_at = add t.expires_at grant_expiry_margin }))
unfolding save_refresh_token new_refresh_token save_new_grant save_token save_grant extend_to_cover
save_refresh_token_covers user_id client_id tokens g env w fresh named = (
  t,
  ground (arith, named),
  refl,
  ground (arith, fresh, named, find_row-upsert (λ x. x.id) t w.tokens),
  ground (arith, fresh, named, find_row-upsert (λ x. x.id) covering w.grants),
)
  where
    t : RefreshToken
    t = record {
      id = env.uuid w.draws;
      user_id = user_id;
      client_id = client_id;
      grant_id = tokens.grant_id;
      token_hash = env.sha256_hex tokens.refresh_token;
      scope = tokens.scope;
      device_id = "";
      authenticated_at = env.time w.ticks;
      created_at = env.time w.ticks;
      expires_at = add (env.time w.ticks) refresh_token_ttl;
      revoked_at = none;
    }

    covering : Grant
    covering = record g { expires_at = add t.expires_at grant_expiry_margin }
