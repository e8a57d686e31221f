-- ===== src/Middleware/RateLimit.antt =====
-- handler/web/middleware/rate_limit.go
pub mod Window
use hexagonal_backend.Common.{ℕ, String, Bool, true, false, List, [], ◌∷◌, if◌then◌else◌, contains}
use hexagonal_backend.Common.Int.{int_gt}
use hexagonal_backend.Common.Text.{is_empty}
use hexagonal_backend.Common.Result.{ok, err}
use hexagonal_backend.Define.Keys.{rate_limit_key}
use hexagonal_backend.World.Cache.{incr_window}
use hexagonal_backend.World.Monad.{when◌then◌else◌, M, pure, attempt, ◌>>=◌}

-- isFailClosedPath
unfoldable pub is_fail_closed_path : String → Bool
is_fail_closed_path path =
    contains ("/sign-in" ∷ "/token" ∷ "/protocol/openid-connect/token" ∷ []) path

-- DistributedRateLimit: whether the request goes on
unfoldable pub rate_limit : ℕ → ℕ → String → String → M Bool
rate_limit limit window ip path = when is_empty ip then pure false else (do
  counted ← attempt (incr_window (rate_limit_key ip) window)
  elim counted [
    | err _ ↦ pure (if is_fail_closed_path path then false else true)
    | ok count ↦ pure (if int_gt count limit then false else true)
  ])
