-- ===== src/Balancer/Kind/Dispatch.antt =====
-- Which selectors `new_selector` of upstream/balancer.rs makes.
use mathlib.Core.Option
use service_proxy.Balancer.Counters
use service_proxy.Balancer.Kind
use service_proxy.Balancer.LeastConn
use service_proxy.Balancer.P2c
use service_proxy.Balancer.P2c.Choice.{next-single}
use service_proxy.Balancer.Rng.{Rng}
use service_proxy.Balancer.RoundRobin.{
  index_of, new_round_robin, round_robin_next, new_counting, counting_next,
}
use service_proxy.Balancer.Kind.{
  has_stats, plain_selector, new_selector, lb_round_robin, lb_least_conn, lb_p2c,
}
use service_proxy.Balancer.Kind.Tracking.{Counting}
use service_proxy.Shared.Text.{Text, ◌=?◌, =?_sound}
use service_proxy.Shared.{
  ◌≡◌, refl, ◌↔◌, inl, inr, true, false, List, [], ◌∷◌, none, Bool-cases, arith,
}

plain_selector-has_stats : (addrs : List Text) → has_stats (plain_selector addrs) ≡ false
unfolding has_stats plain_selector
plain_selector-has_stats [] = refl
plain_selector-has_stats (a ∷ []) = refl
plain_selector-has_stats (a ∷ b ∷ rest) = refl

has_stats-Counting :
    (addrs : List Text) (strategy : Text)
    → has_stats (new_selector addrs strategy) ≡ true
    → Counting strategy
unfolding has_stats new_selector
has_stats-Counting addrs strategy h = elim (Bool-cases (strategy =? lb_round_robin)) [
  | inl one ↦ inl (=?_sound strategy lb_round_robin one)
  | inr other ↦ elim (Bool-cases (strategy =? lb_least_conn)) [
    | inl two ↦ inr (inl (=?_sound strategy lb_least_conn two))
    | inr other' ↦ elim (Bool-cases (strategy =? lb_p2c)) [
      | inl three ↦ inr (inr (=?_sound strategy lb_p2c three))
      | inr other'' ↦ absurd (ground (arith, plain_selector-has_stats addrs))
    ]
  ]
]

Counting-has_stats :
    (addrs : List Text) (strategy : Text)
    → Counting strategy
    → has_stats (new_selector addrs strategy) ≡ true
unfolding has_stats new_selector
Counting-has_stats addrs strategy (inl e) = rw e refl
Counting-has_stats addrs strategy (inr (inl e)) = rw e refl
Counting-has_stats addrs strategy (inr (inr e)) = rw e refl

-- The selector for a strategy has statistics exactly where the strategy is one of the three that
-- have a name, whatever the upstreams.
pub new_selector-has_stats :
    (addrs : List Text) (strategy : Text)
    → (has_stats (new_selector addrs strategy) ≡ true) ↔ Counting strategy
new_selector-has_stats addrs strategy =
    (has_stats-Counting addrs strategy, Counting-has_stats addrs strategy)

counting_empty : (counting_next (new_counting [])).1 ≡ none
unfolding counting_next new_counting Counters.new index_of
counting_empty = refl

round_robin_empty : (round_robin_next (new_round_robin [])).1 ≡ none
unfolding round_robin_next new_round_robin index_of Option.bind
round_robin_empty = refl

least_conn_empty : (r : Rng) (g : r.State) → (LeastConn.next r (LeastConn.new [], g)).1 ≡ none
unfolding LeastConn.next LeastConn.new LeastConn.least_loaded Counters.new
least_conn_empty r g = refl

p2c_empty : (r : Rng) (g : r.State) → (P2c.next r (P2c.new [], g)).1 ≡ none
unfolding P2c.new Counters.new
p2c_empty r g = (next-single r (P2c.new []) g (omega arith)).0

-- With no upstreams at all, as from `UPSTREAM_ADDRS` set to commas and white space only, `next` of
-- the selector for any strategy panics, whatever random numbers are drawn.
pub new_selector-empty :
    (r : Rng) (strategy : Text) (g : r.State) → (Kind.next r (new_selector [] strategy, g)).1 ≡ none
unfolding Kind.next new_selector plain_selector new_round_robin new_counting LeastConn.new P2c.new
    Counters.new
new_selector-empty r strategy g = elim (Bool-cases (strategy =? lb_round_robin)) [
  | inl one ↦ rw one counting_empty
  | inr other ↦ elim (Bool-cases (strategy =? lb_least_conn)) [
    | inl two ↦ rw (other, two) (least_conn_empty r g)
    | inr other' ↦ elim (Bool-cases (strategy =? lb_p2c)) [
      | inl three ↦ rw (other, other', three) (p2c_empty r g)
      | inr other'' ↦ rw (other, other', other'') round_robin_empty
    ]
  ]
]
