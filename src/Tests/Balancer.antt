-- ===== src/Tests/Balancer.antt =====
-- Runs of upstream/balancer.rs.
use service_proxy.Balancer.Counters
use service_proxy.Balancer.Counters.{Counters}
use service_proxy.Balancer.Counters.Laws.{IsAligned, picked}
use service_proxy.Balancer.Kind
use service_proxy.Balancer.Kind.{has_stats, new_selector}
use service_proxy.Balancer.Kind.{least_conn, lb_least_conn}
use service_proxy.Balancer.Kind.Serves.{counters_of}
use service_proxy.Balancer.Kind.Tracking.{System, takes, gives, Reach, here, later, start}
use service_proxy.Balancer.Kind.InFlight.{Reach-inflight, least_conn-fewest}
use service_proxy.Balancer.LeastConn
use service_proxy.Balancer.LeastConn.{LeastConn}
use service_proxy.Balancer.P2c
use service_proxy.Balancer.P2c.{P2c}
use service_proxy.Balancer.P2c.Choice.{next-less_loaded, next-single}
use service_proxy.Balancer.RoundRobin.{new_counting, counting_next}
use service_proxy.Balancer.RoundRobin.Cycle.{counting_next-even, after_calls}
use service_proxy.Tests.Net.{counting_rng}
use service_proxy.Shared.Text.{Text, codes}
use service_proxy.Shared.{
  ℕ, ◌≡◌, refl, inl, inr, none, some, ◌≢◌, rank_i64, as_i32, ◌+◌, ◌-◌, ◌/◌, List, [], ◌∷◌, arith,
  get_elem?, ◌%◌, ◌≤◌, ◌<◌, count,
}

abbrev pub three : List Text
three = codes "a:1" ∷ codes "b:2" ∷ codes "c:3" ∷ []

abbrev busy : Counters
busy = record { addrs = three; total = 5 ∷ 4 ∷ 6 ∷ []; inflight = 2 ∷ 1 ∷ 3 ∷ [] }

busy-IsAligned : IsAligned busy 3
busy-IsAligned = record { addrs_length = refl; total_length = refl; inflight_length = refl }

-- Two requests taken by the least-connections selector, and the first given back.
abbrev pub least_conn_start : System counting_rng
least_conn_start = start counting_rng three lb_least_conn 0

-- The state after a call of `next` that hands out a token.
abbrev pub took : System counting_rng → ℕ → System counting_rng
took s token =
    let after = (Kind.next counting_rng (s.kind, s.gen)).0 in
    record { kind = after.0; gen = after.1; held = token ∷ s.held }

abbrev pub gave : System counting_rng → ℕ → List ℕ → System counting_rng
gave s token held = record s { kind = (Kind.release token s.kind).0; held = held }

abbrev one_taken : System counting_rng
one_taken = took least_conn_start 1

abbrev two_taken : System counting_rng
two_taken = took one_taken 2

abbrev pub one_given : System counting_rng
one_given = gave two_taken 1 (2 ∷ [])

pub one_given-Reach : Reach counting_rng least_conn_start one_given
unfolding Kind.next Kind.new_selector LeastConn.next LeastConn.least_loaded LeastConn.scan
    LeastConn.consider Counters.pick
one_given-Reach =
    later (later (later here (takes (codes "b:2") 1 refl)) (takes (codes "c:3") 2 refl))
      (gives (2 ∷ []) 1 [] refl)

Reach-inflight_example :
    (c : Counters) × (counters_of one_given.kind ≡ some c)
    × ((i : ℕ)
        → i < 3
        → get_elem? c.inflight i ≡ some (count i one_given.held % 18446744073709551616))
Reach-inflight_example =
    Reach-inflight counting_rng three lb_least_conn 0 (inr (inl refl)) (omega arith) (omega arith)
      one_given-Reach

-- The selector inside that state.
abbrev one_given_selector : LeastConn
one_given_selector = record {
  counters = record { addrs = three; total = 0 ∷ 1 ∷ 1 ∷ []; inflight = 0 ∷ 0 ∷ 1 ∷ [] };
}

one_given-kind : one_given.kind ≡ least_conn one_given_selector
unfolding Kind.next Kind.new_selector Kind.release LeastConn.release Counters.release LeastConn.next
    LeastConn.least_loaded LeastConn.scan LeastConn.consider Counters.pick
one_given-kind = refl

least_conn-fewest_example :
    (addr : Text) × (best : ℕ) × (best < 3)
    × ((Kind.next counting_rng (one_given.kind, one_given.gen)).1 ≡ some (addr, best))
    × ((j : ℕ) → j < 3 → count best one_given.held ≤ count j one_given.held)
least_conn-fewest_example =
    least_conn-fewest counting_rng three lb_least_conn 0 one_given_selector (inr (inl refl))
      (omega arith) (omega arith) one_given-Reach one_given-kind (omega arith)

next-less_loaded_example :
    (i j li lj : ℕ) × (addr : Text) × (i ≢ j)
    × (i < 3)
    × (j < 3)
    × (get_elem? busy.inflight i ≡ some li)
    × (get_elem? busy.inflight j ≡ some lj)
    × (rank_i64 li ≤ rank_i64 lj)
    × (get_elem? three i ≡ some addr)
    × (P2c.next counting_rng (record { counters = busy }, 1)
        ≡ ((record { counters = picked i busy }, 3), some (addr, as_i32 i)))
next-less_loaded_example =
    next-less_loaded counting_rng (record { counters = busy }) 1 busy-IsAligned (omega arith)

-- `LB_STRATEGY=p2c` with one upstream.
abbrev alone : P2c
alone = record { counters = record { addrs = codes "a:1" ∷ []; total = 0 ∷ []; inflight = 0 ∷ [] } }

next-single_example :
    ((P2c.next counting_rng (alone, 0)).1 ≡ none) × ((P2c.next counting_rng (alone, 0)).0.0 ≡ alone)
next-single_example = next-single counting_rng alone 0 (omega arith)

counting_next-even_example :
    let c = (after_calls counting_next 7 (new_counting three)).counters in
    (get_elem? c.total 1 ≡ some ((7 + 3 - 1 - 1) / 3))
    × (get_elem? c.inflight 1 ≡ some ((7 + 3 - 1 - 1) / 3))
counting_next-even_example = counting_next-even three 7 1 (omega arith) (omega arith)
