-- ===== src/Common/Time.antt =====
-- time.Time and time.Duration as nanoseconds, the former since the Unix epoch.
use Prim.Native.Nat.{ℕ, ◌+◌, ◌*◌, ◌/◌}
use mathlib.Core.Bool.{Bool}
use hexagonal_backend.Common.Tests.{ltb}

abbrev pub Time : Type 0
Time = ℕ

abbrev pub second : ℕ
second = 1_000_000_000

abbrev pub minute : ℕ
minute = 60 * second

abbrev pub hour : ℕ
hour = 60 * minute

-- t.Before(u), t.After(u), t.Add(d), t.Unix()
abbrev pub before : Time → Time → Bool
before t u = ltb t u

abbrev pub after : Time → Time → Bool
after t u = ltb u t

abbrev pub add : Time → ℕ → Time
add t d = t + d

abbrev pub unix : Time → ℕ
unix t = t / second
