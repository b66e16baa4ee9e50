-- ===== src/Balancer/P2c.antt =====
-- `P2C` of upstream/balancer.rs: power of two choices.
pub mod Choice
use service_proxy.Balancer.Counters
use service_proxy.Balancer.Counters.{Counters, UpstreamStat}
use service_proxy.Balancer.Rng.{Rng, random_range}
use service_proxy.Shared.{
  ℕ, ◌+◌, ◌-◌, leb, Bool, none, some, List, length, get_elem?, if◌then◌else◌, Op, pure, expect,
  ◌>>=◌, lt_i64,
}
use service_proxy.Shared.Text.{Text}

pub record P2c : Type 0 where
  pub counters : Counters

unfoldable pub new : List Text → P2c
new addrs = record { counters = Counters.new addrs }

-- `if j >= i { j += 1; }`
abbrev pub skip : ℕ → ℕ → ℕ
skip i j = if leb i j then j + 1 else j

-- The choice that `next` makes. `0..n` is empty first, so `n - 1` does not wrap.
unfoldable pub choose : (r : Rng) → Counters → Op r.State ℕ
unfolding random_range
choose r c = do
  i ← random_range r (length c.addrs)
  k ← random_range r (length c.addrs - 1)
  load_j ← expect (get_elem? c.inflight (skip i k))
  load_i ← expect (get_elem? c.inflight i)
  pure (if lt_i64 load_j load_i then skip i k else i)

-- `P2C::next`, `release` and `stats`
unfoldable pub next : (r : Rng) → Op (P2c × r.State) (Text × ℕ)
next r (s, g) =
    let (g', chosen) = choose r s.counters g in
    elim chosen [
      | none ↦ ((s, g'), none)
      | some i ↦ let (c, out) = Counters.pick i s.counters in ((record { counters = c }, g'), out)
    ]

unfoldable pub release : ℕ → Op P2c (Unit {0})
release token s = let (c, out) = Counters.release token s.counters in (record { counters = c }, out)

unfoldable pub stats : Bool → Op P2c (List UpstreamStat)
stats reset s = let (c, out) = Counters.stats reset s.counters in (record { counters = c }, out)
