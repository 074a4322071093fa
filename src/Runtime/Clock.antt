-- ===== src/Runtime/Clock.antt =====
-- Points in time and durations of runtime/context.rs. A time is a number of nanoseconds since a fixed
-- moment before all others, a duration a number of nanoseconds.
use Prim.Native.Nat.{ℕ, ◌+◌, ◌*◌, ◌/◌, ◌%◌}

-- `Duration::from_secs`
abbrev pub from_secs : ℕ → ℕ
from_secs n = n * 1000000000

-- `Duration::as_secs`
abbrev pub as_secs : ℕ → ℕ
as_secs d = d / 1000000000

-- The sum of two `u64`, which wraps around.
abbrev pub add_u64 : ℕ → ℕ → ℕ
add_u64 a b = (a + b) % 18446744073709551616
