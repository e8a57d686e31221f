-- ===== src/Command/ExchangeCode/SingleUse.antt =====
-- An authorization code is taken out of the cache by the first exchange that reaches it.
use hexagonal_backend.Common.{String, List, ◌≡◌, refl, Bool, true, false, Option, none, some, arith}
use hexagonal_backend.Common.Text.{str_eq, str_eq_refl}
use hexagonal_backend.Common.Result.{Result, ok, err, is_ok}
use hexagonal_backend.Define.Keys.{auth_code_key}
use hexagonal_backend.Entity.Types.{AuthCode, Client}
use hexagonal_backend.Env.{Env}
use hexagonal_backend.Errors.{panic}
use hexagonal_backend.Service.Authenticator.{authenticate}
use hexagonal_backend.Entity.AuthCode.{is_valid, is_expired, matches_client}
use hexagonal_backend.World.{World, CacheItem}
use hexagonal_backend.World.Cache.{get_and_delete}
use hexagonal_backend.World.Map.{lookup, lookup-delete}
use hexagonal_backend.World.Monad.{M, pure, raise}
use hexagonal_backend.World.Rules.{Keeps, keeps}
use hexagonal_backend.World.Rules.Frame.{OnCache, leaves_cache}
use hexagonal_backend.Command.ExchangeCode.{
  Command, credentials, execute, for_client, redeem, consume_auth_code,
}

-- The cache has no item under the code's key.
abbrev pub CodeGone : String → World → Type 0
CodeGone k w = lookup (auth_code_key k) w.cache ≡ none

consume-CodeGone :
    (k : String) (env : Env) (w : World) {ac : AuthCode} {v : World}
    → consume_auth_code k env w ≡ (ok ac, v)
    → CodeGone k v
unfolding consume_auth_code get_and_delete
consume-CodeGone k env w h = ground (
  arith,
  lookup-delete (auth_code_key k) (auth_code_key k) w.cache,
  str_eq_refl (auth_code_key k),
)

gone-consume :
    (k : String) (env : Env) (w : World)
    → CodeGone k w
    → is_ok (consume_auth_code k env w).0 ≡ false
unfolding consume_auth_code get_and_delete
gone-consume k env w h = ground (arith, h)

matches_client-Keeps :
    (P : _) (ac : AuthCode) (client_id : String) → Keeps (OnCache P) (matches_client ac client_id)
unfolding matches_client
matches_client-Keeps P ac client_id = go ac.client_id
  where
    go :
        (o : Option String)
        → Keeps
            (OnCache P)
            (elim o as (λ _. M Bool) [ none ↦ raise panic | some id ↦ pure (str_eq id client_id) ])
    go none = search keeps
    go (some id) = search keeps

is_valid-Keeps :
    (P : _) (ac : AuthCode) (client_id uri verifier : String)
    → Keeps (OnCache P) (is_valid ac client_id uri verifier)
unfolding is_valid is_expired
is_valid-Keeps P ac client_id uri verifier = search (leaves_cache, matches_client-Keeps)

redeem-Keeps :
    (P : _) (c : Command) (client : Client) (ac : AuthCode) → Keeps (OnCache P) (redeem c client ac)
unfolding redeem
redeem-Keeps P c client ac = search (leaves_cache, is_valid-Keeps) depth 12

for_client-CodeGone :
    (c : Command) (client : Client) (env : Env) (w : World)
    → is_ok (for_client c client env w).0 ≡ true
    → CodeGone c.code (for_client c client env w).1
unfolding for_client
for_client-CodeGone c client env w h = go (consume_auth_code c.code env w).0 refl
  where
    u : World
    u = (consume_auth_code c.code env w).1

    gone : List (String × CacheItem) → Type 0
    gone m = lookup (auth_code_key c.code) m ≡ none

    go :
        (r : Result AuthCode)
        → (consume_auth_code c.code env w).0 ≡ r
        → CodeGone c.code (for_client c client env w).1
    go (err e) eq = absurd (ground (arith, h, eq))
    go (ok ac) eq = ground (
      arith,
      h,
      eq,
      (redeem-Keeps gone c client ac).kept env u (consume-CodeGone c.code env w (λ i. (eq i, u))),
    )

gone-for_client :
    (c : Command) (client : Client) (env : Env) (w : World)
    → CodeGone c.code w
    → is_ok (for_client c client env w).0 ≡ false
unfolding for_client
gone-for_client c client env w h = ground (arith, gone-consume c.code env w h)

execute-CodeGone :
    (c : Command) (env : Env) (w : World)
    → is_ok (execute c env w).0 ≡ true
    → CodeGone c.code (execute c env w).1
unfolding execute
execute-CodeGone c env w h = go (authenticate env (credentials c)) refl
  where
    go :
        (r : Result Client)
        → authenticate env (credentials c) ≡ r
        → CodeGone c.code (execute c env w).1
    go (err e) eq = absurd (ground (arith, h, eq))
    go (ok client) eq = ground (arith, h, eq, for_client-CodeGone c client env w)

gone-execute :
    (c : Command) (env : Env) (w : World) → CodeGone c.code w → is_ok (execute c env w).0 ≡ false
unfolding execute
gone-execute c env w h = go (authenticate env (credentials c)) refl
  where
    go :
        (r : Result Client)
        → authenticate env (credentials c) ≡ r
        → is_ok (execute c env w).0 ≡ false
    go (err e) eq = ground (arith, eq)
    go (ok client) eq = ground (arith, eq, gone-for_client c client env w h)

-- After an exchange that answers with tokens, no exchange of the same code answers with tokens
-- again, whoever asks and however the environment has changed.
pub exchange_single_use :
    (c c' : Command) (env env' : Env) (w : World)
    → c'.code ≡ c.code
    → is_ok (execute c env w).0 ≡ true
    → is_ok (execute c' env' (execute c env w).1).0 ≡ false
exchange_single_use c c' env env' w same h =
    gone-execute c' env' (execute c env w).1 (rw same (execute-CodeGone c env w h))
