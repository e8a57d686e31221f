-- ===== src/Middleware/RateLimit/Window.antt =====
-- How many requests a window lets through.
use hexagonal_backend.Common.{
  ℕ, zero, suc, ◌+◌, ◌-◌, ◌≤◌, ◌<◌, ◌^◌, ◌≡◌, String, false, some, leb, arith, Bool, if◌then◌else◌,
}
use hexagonal_backend.Common.Text.{is_empty, str_eq_refl}
use hexagonal_backend.Common.Time.{Time, after}
use hexagonal_backend.Common.Result.{Result, ok, err}
use hexagonal_backend.Define.Keys.{rate_limit_key}
use hexagonal_backend.Env.{Env, healthy}
use hexagonal_backend.World.{World, number}
use hexagonal_backend.World.Cache.{incr_window}
use hexagonal_backend.World.Map.{lookup, lookup-insert}
use hexagonal_backend.Middleware.RateLimit.{rate_limit}

-- The window's counter stands at n and ends at e.
abbrev pub Counted : String → ℕ → Time → World → Type 0
Counted ip n e w =
    lookup (rate_limit_key ip) w.cache ≡ some (record { value = number n; expires_at = some e })

-- Within a window, the request after n others goes on exactly if it is among the first `limit`,
-- and the counter moves on by one towards the same end, where the cache answers and the counter
-- does not overflow.
pub rate_limit_counts :
    (limit window n : ℕ) (ip path : String) (e : Time) (env : Env) (w : World)
    → is_empty ip ≡ false
    → n + 1 < 2 ^ 63
    → Counted ip n e w
    → after (env.time w.ticks) e ≡ false
    → let (r, v) = rate_limit limit window ip path (healthy env) w in
      (r ≡ ok (leb (n + 1) limit)) × Counted ip (n + 1) e v
unfolding rate_limit incr_window
rate_limit_counts limit window n ip path e env w named small at still = (
  ground (arith, named, small, at, still),
  ground (
    arith,
    named,
    small,
    at,
    still,
    lookup-insert (rate_limit_key ip) (rate_limit_key ip)
        (record { value = number (n + 1); expires_at = some e }) w.cache,
    str_eq_refl (rate_limit_key ip),
  ),
)

abbrev goes_on : Result Bool → ℕ
goes_on (err _) = 0
goes_on (ok b) = if b then 1 else 0

-- How many of k requests, one after the other, go on.
unfoldable pub passed : ℕ → ℕ → ℕ → String → String → Env → World → ℕ
passed zero limit window ip path env w = 0
passed (suc k) limit window ip path env w =
    let (r, v) = rate_limit limit window ip path env w in
    goes_on r + passed k limit window ip path env v

goes_on_bound :
    (n limit p : ℕ) → p ≤ limit - (n + 1) → goes_on (ok (leb (n + 1) limit)) + p ≤ limit - n
goes_on_bound n limit p h = ground arith

-- However many requests come while a window is open that has counted n, at most the limit less n
-- of them go on, where the cache answers and the counter does not overflow.
pub passed_bound :
    (k n limit window : ℕ) (ip path : String) (e : Time) (env : Env) (w : World)
    → is_empty ip ≡ false
    → n + k < 2 ^ 63
    → Counted ip n e w
    → ((t : ℕ) → after (env.time t) e ≡ false)
    → passed k limit window ip path (healthy env) w ≤ limit - n
unfolding passed
passed_bound zero n limit window ip path e env w named small at still = omega arith
passed_bound (suc k) n limit window ip path e env w named small at still =
    let step =
      rate_limit_counts limit window n ip path e env w named (omega arith) at (still w.ticks) in
    rw (step.0) (
      goes_on_bound n limit _ (
        passed_bound k (n + 1) limit window ip path e env
          (rate_limit limit window ip path (healthy env) w).1 named (omega arith) step.1 still))
