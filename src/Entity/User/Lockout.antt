-- ===== src/Entity/User/Lockout.antt =====
-- The account lockout of user.go: how long, and from which failure on.
use hexagonal_backend.Common.{
  ℕ, zero, suc, ◌+◌, ◌-◌, ◌*◌, ◌^◌, ◌≤◌, ◌<◌, ◌≡◌, refl, ◌⊎◌, inl, inr, some, arith, leb,
  if◌then◌else◌,
}
use native.Mathlib.Nat.{le_refl, le_trans}
use hexagonal_backend.Common.Time.{minute, hour}
use hexagonal_backend.Common.Result.{ok}
use hexagonal_backend.Entity.Types.{User}
use hexagonal_backend.Entity.User.{lockout_duration, record_failed_login, max_failed_login_attempts}
use hexagonal_backend.Env.{Env}
use hexagonal_backend.World.{World}

lockout_past_cap : (k : ℕ) → 5 < k → lockout_duration k ≡ hour
unfolding lockout_duration
lockout_past_cap zero h = absurd (omega arith)
lockout_past_cap (suc zero) h = absurd (omega arith)
lockout_past_cap (suc (suc zero)) h = absurd (omega arith)
lockout_past_cap (suc (suc (suc zero))) h = absurd (omega arith)
lockout_past_cap (suc (suc (suc (suc zero)))) h = absurd (omega arith)
lockout_past_cap (suc (suc (suc (suc (suc zero))))) h = absurd (omega arith)
lockout_past_cap (suc (suc (suc (suc (suc (suc zero)))))) h = refl
lockout_past_cap (suc (suc (suc (suc (suc (suc (suc n))))))) h = ground arith

-- Below the cap the duration is 2 ^ k minutes.
lockout_below_cap : (k : ℕ) → k < 6 → lockout_duration k ≡ 2 ^ k * minute
unfolding lockout_duration
lockout_below_cap zero h = refl
lockout_below_cap (suc zero) h = refl
lockout_below_cap (suc (suc zero)) h = refl
lockout_below_cap (suc (suc (suc zero))) h = refl
lockout_below_cap (suc (suc (suc (suc zero)))) h = refl
lockout_below_cap (suc (suc (suc (suc (suc zero))))) h = refl
lockout_below_cap (suc (suc (suc (suc (suc (suc n)))))) h = absurd (omega arith)

lockout_step : (k : ℕ) → lockout_duration k ≤ lockout_duration (suc k)
unfolding lockout_duration
lockout_step zero = omega arith
lockout_step (suc zero) = omega arith
lockout_step (suc (suc zero)) = omega arith
lockout_step (suc (suc (suc zero))) = omega arith
lockout_step (suc (suc (suc (suc zero)))) = omega arith
lockout_step (suc (suc (suc (suc (suc zero))))) = omega arith
lockout_step (suc (suc (suc (suc (suc (suc n)))))) = ground arith

zero_of_le : (j : ℕ) → j ≤ 0 → j ≡ 0
zero_of_le j h = omega arith

le_or_eq : (j k : ℕ) → j ≤ suc k → (j ≤ k) ⊎ (j ≡ suc k)
le_or_eq j k h = omega arith

lockout_mono : (j k : ℕ) → j ≤ k → lockout_duration j ≤ lockout_duration k
lockout_mono j zero h = rw (zero_of_le j h) (le_refl _)
lockout_mono j (suc k) h = elim (le_or_eq j k h) [
  | inl below ↦ le_trans (lockout_mono j k below) (lockout_step k)
  | inr same ↦ rw same (le_refl _)
]

-- The k-th lockout over the threshold lasts 2 ^ k minutes for k below 6 and one hour from then on,
-- and never less than a lockout before it.
pub lockout_schedule :
    (j k : ℕ)
    → j ≤ k
    → (k < 6 → lockout_duration k ≡ 2 ^ k * minute)
      × (5 < k → lockout_duration k ≡ hour)
      × (lockout_duration j ≤ lockout_duration k)
lockout_schedule j k h = (lockout_below_cap k, lockout_past_cap k, lockout_mono j k h)

-- The account after one more failed login, by two readings of the clock.
abbrev pub after_failure : Env → User → ℕ → User
after_failure env u tick =
    let n = u.failed_login_attempts + 1 in
    let locks = leb max_failed_login_attempts n in
    record u {
      failed_login_attempts = n;
      locked_until =
          if locks
          then some (env.time tick + lockout_duration (n - max_failed_login_attempts))
          else u.locked_until;
      updated_at = env.time (if locks then tick + 1 else tick);
    }

-- A failed login raises the counter, which is supposed not to overflow, by one, and locks the
-- account exactly from the fifth failure on, for the duration that the failures over the
-- threshold call for, from a reading of the clock.
pub record_failed_login_lem :
    (u : User) (env : Env) (w : World)
    → u.failed_login_attempts + 1 < 2 ^ 63
    → (record_failed_login u env w).0 ≡ ok (after_failure env u w.ticks)
unfolding record_failed_login
record_failed_login_lem u env w h = ground arith
