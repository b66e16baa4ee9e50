-- ===== src/Balancer/LeastConn.antt =====
-- `LeastConn` of upstream/balancer.rs.
pub mod Minimum
use service_proxy.Balancer.Counters
use service_proxy.Balancer.Counters.{Counters, UpstreamStat}
use service_proxy.Balancer.Rng.{Rng, random_range}
use service_proxy.Shared.{
  ℕ, zero, suc, ◌+◌, ◌-◌, ◌==◌, Bool, none, some, List, length, get_elem?, if◌then◌else◌, Op, pure,
  expect, ◌>>=◌, lt_i64,
}
use service_proxy.Shared.Text.{Text}

pub record LeastConn : Type 0 where
  pub counters : Counters

unfoldable pub new : List Text → LeastConn
new addrs = record { counters = Counters.new addrs }

-- The variables of the loop in `next`.
pub record Best : Type 0 where
  pub best : ℕ
  pub best_load : ℕ
  pub ties : ℕ

-- `if rng.random_range(0..ties) == 0 { best = i; }` with the new `ties`
unfoldable pub break_tie : (r : Rng) → ℕ → Best → Op r.State Best
unfolding random_range
break_tie r i b = do
  k ← random_range r (b.ties + 1)
  pure (record b { best = if k == 0 then i else b.best; ties = b.ties + 1 })

-- The body of the loop.
unfoldable pub consider : (r : Rng) → ℕ → ℕ → Best → Op r.State Best
unfolding break_tie
consider r i load b =
    if lt_i64 load b.best_load
    then pure (record { best = i; best_load = load; ties = 1 })
    else if load == b.best_load
    then break_tie r i b
    else pure b

-- `for i in 1..len`, with the rounds left.
unfoldable pub scan : (r : Rng) → List ℕ → ℕ → ℕ → Best → Op r.State Best
scan r inflight zero i b = pure b
scan r inflight (suc rounds) i b = do
  load ← expect (get_elem? inflight i)
  b' ← consider r i load b
  scan r inflight rounds (suc i) b'

-- The choice that `next` makes.
unfoldable pub least_loaded : (r : Rng) → Counters → Op r.State ℕ
least_loaded r c = do
  load ← expect (get_elem? c.inflight 0)
  b ← scan r c.inflight (length c.addrs - 1) 1 (record { best = 0; best_load = load; ties = 1 })
  pure b.best

-- `LeastConn::next`, `release` and `stats`
unfoldable pub next : (r : Rng) → Op (LeastConn × r.State) (Text × ℕ)
next r (s, g) =
    let (g', chosen) = least_loaded r s.counters g in
    elim chosen [
      | none ↦ ((s, g'), none)
      | some best ↦
          let (c, out) = Counters.pick best s.counters in ((record { counters = c }, g'), out)
    ]

unfoldable pub release : ℕ → Op LeastConn (Unit {0})
release token s = let (c, out) = Counters.release token s.counters in (record { counters = c }, out)

unfoldable pub stats : Bool → Op LeastConn (List UpstreamStat)
stats reset s = let (c, out) = Counters.stats reset s.counters in (record { counters = c }, out)
