-- ===== src/Command/RevokeToken/Owner.antt =====
-- The revocation of another owner's token.
use hexagonal_backend.Common.{◌≡◌, ◌+◌, false, some, arith}
use hexagonal_backend.Common.Text.{is_empty, str_eq}
use hexagonal_backend.Common.Result.{ok}
use hexagonal_backend.Entity.Types.{RefreshToken}
use hexagonal_backend.Env.{Env, healthy}
use hexagonal_backend.World.{World}
use hexagonal_backend.World.Stores.{find_row, find_token_by_hash}
use hexagonal_backend.Command.RevokeToken.{
  Command, execute, authorize_caller, refresh_first, revoke_owned, is_access_hint,
}

-- Where the stores answer, a caller with a bearer token who revokes a refresh token of another
-- user, without the hint of an access token, is answered as for an unknown token, and nothing but
-- the count of calls changes.
pub revoke_other_owner :
    (c : Command) (rt : RefreshToken) (env : Env) (w : World)
    → is_empty c.caller_id ≡ false
    → is_access_hint c.token_type_hint ≡ false
    → find_row (λ t. str_eq t.token_hash (env.sha256_hex c.token)) w.tokens ≡ some rt
    → str_eq rt.user_id c.caller_id ≡ false
    → execute c (healthy env) w ≡ (ok tt, record w { calls = w.calls + 1 })
unfolding execute authorize_caller refresh_first revoke_owned find_token_by_hash
revoke_other_owner c rt env w caller hint found other = ground (arith, caller, hint, found, other)
