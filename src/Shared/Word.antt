-- ===== src/Shared/Word.antt =====
-- Machine integers. A word is a number below `2 ^ 64` or `2 ^ 32`; a signed one is its two's
-- complement pattern. `usize` has 64 bits.
use Prim.Native.Nat.{ℕ, ◌+◌, ◌-◌, ◌%◌, ◌^◌, ◌<◌}
use mathlib.Core.Path.{◌≡◌}
use mathlib.Core.Bool.{Bool}
use native.Mathlib.Omega.{arith}
use service_proxy.Shared.Tests.{ltb}

-- `fetch_add` and `fetch_sub` wrap around, for `AtomicU64`, `AtomicI64` and `AtomicUsize` alike.
abbrev pub wrapping_add : ℕ → ℕ → ℕ
wrapping_add a b = (a + b) % 2 ^ 64

abbrev pub wrapping_sub : ℕ → ℕ → ℕ
wrapping_sub a b = (a + 2 ^ 64 - b) % 2 ^ 64

-- The rank of an `i64` pattern among the signed values, from the least one up.
abbrev pub rank_i64 : ℕ → ℕ
rank_i64 a = (a + 2 ^ 63) % 2 ^ 64

abbrev pub lt_i64 : ℕ → ℕ → Bool
lt_i64 a b = ltb (rank_i64 a) (rank_i64 b)

-- `usize as i32`, and the value -1.
abbrev pub as_i32 : ℕ → ℕ
as_i32 n = n % 2 ^ 32

abbrev pub minus_one : ℕ
minus_one = 2 ^ 32 - 1

-- `token >= 0` for an `i32`.
abbrev pub nonneg_i32 : ℕ → Bool
nonneg_i32 t = ltb t (2 ^ 31)

pub wrapping_sub-wrapping_add :
    (a b : ℕ) → a < 2 ^ 64 → b < 2 ^ 64 → wrapping_sub (wrapping_add a b) b ≡ a
wrapping_sub-wrapping_add a b h k = omega arith
