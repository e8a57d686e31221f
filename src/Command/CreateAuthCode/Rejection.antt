-- ===== src/Command/CreateAuthCode/Rejection.antt =====
-- A refused sign-in: the session's failures.
use hexagonal_backend.Common.{
  ◌+◌, ◌<◌, ◌^◌, ◌≡◌, refl, String, true, false, none, some, Option, leb, arith,
}
use hexagonal_backend.Common.Text.{str_eq_refl}
use hexagonal_backend.Common.Time.{add}
use hexagonal_backend.Common.Result.{ok, err}
use hexagonal_backend.Define.Keys.{authorize_request_key}
use hexagonal_backend.Entity.AuthRequest.{
  request_fail, is_locked_out, max_failed_attempts, authorize_request_ttl,
}
use hexagonal_backend.Entity.Types.{User, AuthorizeRequest}
use hexagonal_backend.Entity.User.{record_failed_login}
use hexagonal_backend.Env.{Env, healthy}
use hexagonal_backend.Errors.{err_max_login_attempts_exceeded, err_invalid_email_or_password}
use hexagonal_backend.World.{World, CacheItem, request}
use hexagonal_backend.World.Cache.{cache_set}
use hexagonal_backend.World.Map.{lookup, lookup-insert}
use hexagonal_backend.World.Stores.{save_user}
use hexagonal_backend.Command.CreateAuthCode.{reject_credentials, record_account_failure}

record_account_failure-cache :
    (user : Option User) (env : Env) (w : World)
    → (record_account_failure user env w).1.cache ≡ w.cache
unfolding record_account_failure record_failed_login save_user
record_account_failure-cache none env w = refl
record_account_failure-cache (some user) env w = ground arith

record_account_failure-ok :
    (user : Option User) (env : Env) (w : World) → (record_account_failure user env w).0 ≡ ok tt
unfolding record_account_failure record_failed_login save_user
record_account_failure-ok none env w = refl
record_account_failure-ok (some user) env w = ground arith

-- Where the stores answer and the counter does not overflow, the third failure of a session ends
-- it, since it stays out of the cache; a failure before that puts it back with one failure more,
-- and is answered like any wrong password.
pub reject_credentials_lem :
    (session : AuthorizeRequest) (user : Option User) (env : Env) (w : World)
    → session.failed_attempts + 1 < 2 ^ 63
    → let (r, v) = reject_credentials {A = String} session user (healthy env) w in
      (leb max_failed_attempts (session.failed_attempts + 1) ≡ true
        → (r ≡ err err_max_login_attempts_exceeded) × (v.cache ≡ w.cache))
      × (leb max_failed_attempts (session.failed_attempts + 1) ≡ false
          → (r ≡ err err_invalid_email_or_password)
            × (lookup (authorize_request_key session.id) v.cache
                ≡ some (record {
                  value =
                      request (record session { failed_attempts = session.failed_attempts + 1 });
                  expires_at = some (
                      add
                        (env.time (record_account_failure user (healthy env) w).1.ticks)
                        authorize_request_ttl);
                })))
unfolding reject_credentials request_fail is_locked_out cache_set
reject_credentials_lem session user env w small = (
  λ last. (ground (arith, last, small, answered), ground (arith, last, small, answered, cached)),
  λ more. (
    ground (arith, more, small, answered),
    ground (
      arith,
      more,
      small,
      answered,
      cached,
      str_eq_refl key,
      lookup-insert key key item (record_account_failure user (healthy env) w).1.cache,
    ),
  ),
)
  where
    answered : (record_account_failure user (healthy env) w).0 ≡ ok tt
    answered = record_account_failure-ok user (healthy env) w

    cached : (record_account_failure user (healthy env) w).1.cache ≡ w.cache
    cached = record_account_failure-cache user (healthy env) w

    key : String
    key = authorize_request_key session.id

    item : CacheItem
    item = record {
      value = request (record session { failed_attempts = session.failed_attempts + 1 });
      expires_at = some (
          add (env.time (record_account_failure user (healthy env) w).1.ticks)
            authorize_request_ttl);
    }
