-- ===== src/Common/Int.antt =====
-- Go's int: a signed number given by a client, and 64-bit counters kept as bit patterns.
use hexagonal_backend.Common.Tests.{ltb, leb}
use Prim.Native.Nat.{ℕ, ◌+◌, ◌%◌, ◌^◌}
use mathlib.Core.Bool.{Bool, ◌&&◌}

-- `negsuc n` is -(n + 1).
pub data ℤ : Type 0 where
  pos : ℕ → ℤ
  negsuc : ℕ → ℤ

-- n + 1 on a 64-bit word.
abbrev pub incr64 : ℕ → ℕ
incr64 n = (n + 1) % 2 ^ 64

-- The signed tests `a >= b` and `a > b` for a bound b that is not negative.
abbrev pub int_ge : ℕ → ℕ → Bool
int_ge a b = leb b a && ltb a (2 ^ 63)

abbrev pub int_gt : ℕ → ℕ → Bool
int_gt a b = ltb b a && ltb a (2 ^ 63)
