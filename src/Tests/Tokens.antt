-- ===== src/Tests/Tokens.antt =====
-- Refresh tokens, codes and revocations in the small deployment.
use hexagonal_backend.Common.{
  ◌+◌, ◌≡◌, refl, true, false, none, some, arith, ◌*◌, ◌<◌, ◌≤◌, ◌≢◌, ap, leb, [], ◌∷◌,
}
use hexagonal_backend.Common.Result.{ok, err, is_ok}
use hexagonal_backend.Command.ExchangeCode
use hexagonal_backend.Command.ExchangeCode.SingleUse.{exchange_single_use}
use mathlib.Core.List.{Memᴰ}
use hexagonal_backend.Common.{◌⊎◌, is_some}
use hexagonal_backend.Command.ExchangeCode.Checks.{exchange_checked, Exchanged}
use hexagonal_backend.Command.ExchangeCode.Grants.{save_refresh_token_covers}
use hexagonal_backend.Command.RefreshToken
use hexagonal_backend.Command.RefreshToken.Failure.{failed_rotation_issues_none}
use hexagonal_backend.Command.RefreshToken.Replay.{refresh_replay, FamilyRevoked}
use hexagonal_backend.Command.RefreshToken.Rotation.{rotation_single_use}
use hexagonal_backend.Command.RevokeToken
use hexagonal_backend.Command.RevokeToken.Owner.{revoke_other_owner}
use hexagonal_backend.Entity.Types.{IssuedTokens, RefreshToken}
use hexagonal_backend.Env.{Env, healthy}
use hexagonal_backend.Errors.{err_invalid_refresh_token, err_gen_refresh_token_failed, backend}
use hexagonal_backend.Common.Text.{str_eq}
use hexagonal_backend.Common.Time.{add, hour}
use hexagonal_backend.Entity.Grant.{grant_expiry_margin}
use hexagonal_backend.Entity.Token.{new_refresh_token}
use hexagonal_backend.Middleware.Revoked.{is_revoked}
use hexagonal_backend.Middleware.Revoked.Markers.{marked_grant_is_revoked, blacklisted_is_revoked}
use hexagonal_backend.Middleware.Revoked.Sessions.{marked_sessions_are_revoked}
use hexagonal_backend.Service.Revocation.{
  mark_grant_revoked, blacklist_jti, mark_sessions_invalidated,
}
use hexagonal_backend.Service.Authenticator.{authenticate}
use hexagonal_backend.World.{World}
use hexagonal_backend.World.Stores.{find_row}
use hexagonal_backend.Tests.Fixtures.{env, world, app, claims, token, spent_token, new_token, grant}

abbrev replaying : RefreshToken.Command
replaying = record {
  grant_type = "refresh_token";
  client_id = "app";
  client_secret = "";
  basic_client_id = "app";
  basic_client_secret = "s3cret";
  refresh_token = "spent";
  expire_secs = none;
}

refresh_replay_example :
    (RefreshToken.execute replaying (healthy env) world).0 ≡ err err_invalid_refresh_token
    × FamilyRevoked env "g1" (RefreshToken.execute replaying (healthy env) world).1
unfolding authenticate find_row hexagonal_backend.World.Stores.find_client
    hexagonal_backend.Entity.Client.verify_secret hexagonal_backend.Entity.Client.allows_grant
    hexagonal_backend.Common.contains
refresh_replay_example =
    refresh_replay replaying app spent_token 1 env world refl refl refl refl refl

abbrev exchanging : ExchangeCode.Command
exchanging = record {
  code = "c0de";
  client_id = "";
  client_secret = "";
  basic_client_id = "app";
  basic_client_secret = "s3cret";
  redirect_uri = "https://app/cb";
  expire_secs = none;
  code_verifier = "";
}

exchange_answers : is_ok (ExchangeCode.execute exchanging env world).0 ≡ true
unfolding ExchangeCode.execute authenticate hexagonal_backend.World.Stores.find_client
    hexagonal_backend.Entity.Client.verify_secret hexagonal_backend.Entity.Client.allows_grant
    hexagonal_backend.Common.contains ExchangeCode.consume_auth_code
    hexagonal_backend.World.Cache.get_and_delete hexagonal_backend.World.Map.lookup
    hexagonal_backend.Entity.AuthCode.validate hexagonal_backend.Entity.AuthCode.is_valid
    hexagonal_backend.World.Stores.find_user_by_id hexagonal_backend.Service.Issuance.issue_tokens
    hexagonal_backend.Entity.Grant.new_grant hexagonal_backend.Service.Jwt.gen_access_token
    hexagonal_backend.Service.Jwt.gen_id_token ExchangeCode.save_refresh_token new_refresh_token
    find_row hexagonal_backend.World.Stores.save_grant hexagonal_backend.World.Stores.save_token
exchange_answers = refl

exchange_single_use_example :
    is_ok (ExchangeCode.execute exchanging env (ExchangeCode.execute exchanging env world).1).0
    ≡ false
exchange_single_use_example =
    exchange_single_use exchanging exchanging env env world refl exchange_answers

exchange_checked_example : Exchanged env world exchanging
exchange_checked_example = exchange_checked exchanging env world exchange_answers

abbrev issued : IssuedTokens
issued = record {
  access_token = "at";
  refresh_token = "raw";
  id_token = "id";
  scope = "openid" ∷ [];
  grant_id = "g1";
  new_grant = some grant;
}

save_refresh_token_covers_example :
    let (rt, _) = new_refresh_token "u1" "app" issued (healthy env) world in
    let v = (ExchangeCode.save_refresh_token "u1" "app" issued (healthy env) world).1 in
    (t : RefreshToken) × (rt ≡ ok t)
    × (t.grant_id ≡ "g1")
    × (find_row (λ x. str_eq x.id t.id) v.tokens ≡ some t)
    × (find_row (λ x. str_eq x.id "g1") v.grants
        ≡ some (record grant { expires_at = add t.expires_at grant_expiry_margin }))
save_refresh_token_covers_example =
    save_refresh_token_covers "u1" "app" issued grant env world refl refl

rotation_answers : is_ok (RefreshToken.update_refresh_token token new_token env world).0 ≡ true
unfolding RefreshToken.update_refresh_token hexagonal_backend.World.Stores.do_in_transaction
    RefreshToken.check_and_extend_grant hexagonal_backend.World.Stores.find_grant
    hexagonal_backend.Entity.Grant.is_valid hexagonal_backend.World.Stores.save_grant
    hexagonal_backend.World.Stores.revoke_token_by_hash
rotation_answers = refl

other_id : new_token.id ≢ token.id
other_id h = absurd (ground (arith, ap (λ s. str_eq s "t1") h))

other_hash : new_token.token_hash ≢ token.token_hash
other_hash h = absurd (ground (arith, ap (λ s. str_eq s "old") h))

rotation_single_use_example :
    is_ok
      (RefreshToken.update_refresh_token token new_token env
        (RefreshToken.update_refresh_token token new_token env world).1).0
    ≡ false
unfolding find_row
rotation_single_use_example =
    rotation_single_use token new_token new_token env env world refl refl other_id other_hash
      rotation_answers

-- The stores fail from the fifth call on, which saves the new token.
abbrev failing : Env
failing = record env { fault = λ n. leb 4 n }

rotation_fails :
    (RefreshToken.update_refresh_token token new_token failing world).0
    ≡ err (err_gen_refresh_token_failed backend)
unfolding RefreshToken.update_refresh_token hexagonal_backend.World.Stores.do_in_transaction
    RefreshToken.check_and_extend_grant hexagonal_backend.World.Stores.find_grant
    hexagonal_backend.Entity.Grant.is_valid hexagonal_backend.World.Stores.save_grant
    hexagonal_backend.World.Stores.revoke_token_by_hash
rotation_fails = refl

-- The old token is revoked all the same.
abbrev revoked_token : RefreshToken
revoked_token = record token { revoked_at = some (env.time 2) }

old_row :
    Memᴰ revoked_token (RefreshToken.update_refresh_token token new_token failing world).1.tokens
unfolding RefreshToken.update_refresh_token hexagonal_backend.World.Stores.do_in_transaction
    RefreshToken.check_and_extend_grant hexagonal_backend.World.Stores.find_grant
    hexagonal_backend.Entity.Grant.is_valid hexagonal_backend.World.Stores.save_grant
    hexagonal_backend.World.Stores.revoke_token_by_hash
old_row = Memᴰ.tail (Memᴰ.head refl)

failed_rotation_issues_none_example :
    Memᴰ revoked_token world.tokens ⊎ (is_some revoked_token.revoked_at ≡ true)
failed_rotation_issues_none_example =
    failed_rotation_issues_none token new_token failing world rotation_fails revoked_token old_row

abbrev revoking : RevokeToken.Command
revoking = record {
  caller_id = "u2";
  client_id = "";
  client_secret = "";
  basic_client_id = "";
  basic_client_secret = "";
  token = "old";
  token_type_hint = none;
}

revoke_other_owner_example :
    RevokeToken.execute revoking (healthy env) world ≡ (ok tt, record world { calls = 1 })
unfolding find_row
revoke_other_owner_example = revoke_other_owner revoking token env world refl refl refl refl

-- The clock stands still.
abbrev frozen : Env
frozen = record env { time = λ n. hour }

marked_grant_is_revoked_example :
    (is_revoked claims (healthy frozen) (mark_grant_revoked "g1" (healthy frozen) world).1).0
    ≡ ok true
marked_grant_is_revoked_example = marked_grant_is_revoked claims frozen frozen world refl λ n. refl

blacklisted_is_revoked_example :
    (is_revoked claims
      (healthy frozen)
      (blacklist_jti "jti-1" (2 * hour) (healthy frozen) world).1).0
    ≡ ok true
blacklisted_is_revoked_example =
    blacklisted_is_revoked claims (2 * hour) frozen frozen world refl λ n. refl

marked_sessions_are_revoked_example :
    (is_revoked claims
      (healthy frozen)
      (mark_sessions_invalidated "u1" (hour + 1) (healthy frozen) world).1).0
    ≡ ok true
marked_sessions_are_revoked_example =
    marked_sessions_are_revoked claims hour (hour + 1) frozen frozen world refl refl λ n. refl
