-- ===== src/Balancer/RoundRobin.antt =====
-- `Fixed`, `RoundRobin` and `CountingRoundRobin` of upstream/balancer.rs.
pub mod Cycle
use service_proxy.Balancer.Counters
use service_proxy.Balancer.Counters.{Counters, UpstreamStat}
use service_proxy.Shared.{
  ℕ, ◌%◌, ◌==◌, Bool, Option, none, some, List, length, get_elem?, if◌then◌else◌, Op, pure,
  wrapping_add, minus_one,
}
use mathlib.Core.Option
use service_proxy.Shared.Text.{Text}

pub record Fixed : Type 0 where
  pub addr : Text

-- `Fixed::next` and `Fixed::release`
unfoldable pub fixed_next : Op Fixed (Text × ℕ)
fixed_next s = pure (s.addr, minus_one) s

unfoldable pub fixed_release : ℕ → Op Fixed (Unit {0})
fixed_release token = pure tt

pub record RoundRobin : Type 0 where
  pub addrs : List Text
  pub counter : ℕ

unfoldable pub new_round_robin : List Text → RoundRobin
new_round_robin addrs = record { addrs = addrs; counter = 0 }

-- `i as usize % len`; a remainder by zero panics.
unfoldable pub index_of : ℕ → ℕ → Option ℕ
index_of i len = if len == 0 then none else some (i % len)

-- `RoundRobin::next`: the counter has moved on also where the index panics.
unfoldable pub round_robin_next : Op RoundRobin (Text × ℕ)
unfolding index_of Option.bind
round_robin_next s = (
  record s { counter = wrapping_add s.counter 1 },
  Option.bind (index_of s.counter (length s.addrs))
      λ idx. Option.map (λ addr. (addr, minus_one)) (get_elem? s.addrs idx),
)

unfoldable pub round_robin_release : ℕ → Op RoundRobin (Unit {0})
round_robin_release token = pure tt

pub record CountingRoundRobin : Type 0 where
  pub counters : Counters
  pub counter : ℕ

unfoldable pub new_counting : List Text → CountingRoundRobin
new_counting addrs = record { counters = Counters.new addrs; counter = 0 }

-- `self.counters.pick(idx)` and the like: an operation of the counters inside.
abbrev pub on_counters {ℓ} : {A : Type ℓ} → Op Counters A → Op CountingRoundRobin A
on_counters m s = let (c, out) = m s.counters in (record s { counters = c }, out)

abbrev pub pick_index : Option ℕ → Op CountingRoundRobin (Text × ℕ)
pick_index none s = (s, none)
pick_index (some idx) s = on_counters (Counters.pick idx) s

-- `CountingRoundRobin::next`, `release` and `stats`
unfoldable pub counting_next : Op CountingRoundRobin (Text × ℕ)
unfolding index_of
counting_next s =
    pick_index (index_of s.counter (length s.counters.addrs))
      (record s { counter = wrapping_add s.counter 1 })

unfoldable pub counting_release : ℕ → Op CountingRoundRobin (Unit {0})
counting_release token = on_counters (Counters.release token)

unfoldable pub counting_stats : Bool → Op CountingRoundRobin (List UpstreamStat)
counting_stats reset = on_counters (Counters.stats reset)
