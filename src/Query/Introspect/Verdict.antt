-- ===== src/Query/Introspect/Verdict.antt =====
-- Introspection against the bearer middleware.
use hexagonal_backend.Common.{◌≡◌, refl, Bool, true, false, some, none, ◌⊎◌, inl, inr, arith}
use hexagonal_backend.Common.Text.{is_empty}
use hexagonal_backend.Common.Result.{Result, ok, err}
use hexagonal_backend.Env.{Env, Claims}
use hexagonal_backend.World.{World}
use hexagonal_backend.Middleware.Revoked.{is_revoked}
use hexagonal_backend.Middleware.Bearer.{check_token, check_bearer}
use hexagonal_backend.Service.Jwt.{parse_jwt}
use hexagonal_backend.Define.Response.{inactive, active}
use hexagonal_backend.Query.Introspect.{
  Query, execute, authorize_caller, judge, describe, denied, marked, sessions_marked,
}

-- A failed check counts as a revocation.
abbrev pub fail_closed : Result Bool → Bool
fail_closed (err _) = true
fail_closed (ok b) = b

denied-eq-is_revoked :
    (claims : Claims) (env : Env) (w : World)
    → is_empty claims.id ≡ false
    → denied claims env w
      ≡ (ok (fail_closed (is_revoked claims env w).0), (is_revoked claims env w).1)
unfolding denied is_revoked marked sessions_marked
denied-eq-is_revoked claims env w h = ground arith

-- For a caller that may ask and a token with an id, and with a cache, introspection answers active
-- exactly if the bearer check would let the token through.
pub introspect_agrees :
    (q : Query) (claims : Claims) (env : Env) (w : World)
    → authorize_caller q env w ≡ (ok tt, w)
    → parse_jwt env q.token ≡ ok claims
    → is_empty claims.id ≡ false
    → env.has_cache ≡ true
    → ((execute q env w).0 ≡ ok (active (describe claims))
        × ((check_token q.token env w).0 ≡ ok (some (claims, q.token))))
      ⊎ ((execute q env w).0 ≡ ok inactive × ((check_token q.token env w).0 ≡ ok none))
unfolding execute judge check_token check_bearer
introspect_agrees q claims env w may parsed named cached = go (is_revoked claims env w).0 refl
  where
    Goal : Type 0
    Goal =
        ((execute q env w).0 ≡ ok (active (describe claims))
          × ((check_token q.token env w).0 ≡ ok (some (claims, q.token))))
        ⊎ ((execute q env w).0 ≡ ok inactive × ((check_token q.token env w).0 ≡ ok none))

    go : (r : Result Bool) → (is_revoked claims env w).0 ≡ r → Goal
    go (err e) h = inr (
      ground (arith, may, parsed, named, cached, h, denied-eq-is_revoked claims env w named),
      ground (arith, parsed, named, h),
    )
    go (ok true) h = inr (
      ground (arith, may, parsed, named, cached, h, denied-eq-is_revoked claims env w named),
      ground (arith, parsed, named, h),
    )
    go (ok false) h = inl (
      ground (arith, may, parsed, named, cached, h, denied-eq-is_revoked claims env w named),
      ground (arith, parsed, named, h),
    )
