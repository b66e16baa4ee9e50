-- ===== src/Balancer/Rng.antt =====
-- The `rand` crate as the selectors use it: `random_range(0..n)`.
-- It is not part of the repository. The documented behaviour relied on is that a draw from a range
-- that is not empty lies in the range, and that an empty range panics.
use service_proxy.Shared.{ℕ, ◌<◌, ◌==◌, none, some, if◌then◌else◌, Op}

pub record Rng : Type 1 where
  pub State : Type 0
  pub sample : State → ℕ → ℕ
  pub advance : State → State
  pub sample-lt : (g : State) (n : ℕ) → 0 < n → sample g n < n

-- `rng.random_range(0..n)`
unfoldable pub random_range : (r : Rng) → ℕ → Op r.State ℕ
random_range r n g = if n == 0 then (g, none) else (r.advance g, some (r.sample g n))
