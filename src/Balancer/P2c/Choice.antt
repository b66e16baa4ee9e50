-- ===== src/Balancer/P2c/Choice.antt =====
-- The choice of `P2C::next` of upstream/balancer.rs, with two upstreams or more and with fewer.
use service_proxy.Balancer.Counters.Laws.{IsAligned, picked, pick_lem}
use service_proxy.Balancer.Counters.{Counters}
use service_proxy.Balancer.P2c
use service_proxy.Balancer.P2c.{P2c, choose, skip}
use service_proxy.Balancer.Rng.{Rng, random_range}
use service_proxy.Shared.{
  ℕ, ◌-◌, ◌≤◌, ◌<◌, ◌≡◌, ◌≢◌, inl, inr, none, some, arith, length, get_elem?, get_elem?-total,
  Bool-cases, lt_i64, rank_i64, as_i32,
}
use service_proxy.Shared.Text.{Text}

random_range_lem :
    (r : Rng) (n : ℕ) (g : r.State)
    → 0 < n
    → random_range r n g ≡ (r.advance g, some (r.sample g n))
unfolding random_range
random_range_lem r n g h = ground arith

-- The two upstreams that are compared.
pub choose_lem :
    (r : Rng) (c : Counters) (g : r.State) {n : ℕ}
    → IsAligned c n
    → 2 ≤ n
    → (i j li lj : ℕ) × (i ≢ j)
      × (i < n)
      × (j < n)
      × (get_elem? c.inflight i ≡ some li)
      × (get_elem? c.inflight j ≡ some lj)
      × (rank_i64 li ≤ rank_i64 lj)
      × (choose r c g ≡ (r.advance (r.advance g), some i))
unfolding choose random_range
choose_lem r c g {n} v two =
    let i : ℕ = r.sample g n in
    let k : ℕ = r.sample (r.advance g) (n - 1) in
    let i_lt : i < n = r.sample-lt g n (omega arith) in
    let k_lt : k < n - 1 = r.sample-lt (r.advance g) (n - 1) (omega arith) in
    let j_lt : skip i k < n = ground arith in
    let j_ne : i ≢ skip i k = ground arith in
    let (li, ei) = get_elem?-total c.inflight i (omega (arith, v)) in
    let (lj, ej) = get_elem?-total c.inflight (skip i k) (omega (arith, v)) in
    elim (Bool-cases (lt_i64 lj li)) [
      | inl less ↦
          (skip i k, i, lj, li, ground arith, j_lt, i_lt, ej, ei, ground arith, ground arith)
      | inr more ↦ (i, skip i k, li, lj, j_ne, i_lt, j_lt, ei, ej, ground arith, ground arith)
    ]

-- With at least two upstreams, `P2C::next` never panics, whatever random numbers are drawn: it
-- compares two different upstreams, picks one whose in-flight count, as a signed number, is at most
-- the other's, counts the pick, and returns its address with the index as the token.
pub next-less_loaded :
    (r : Rng) (s : P2c) (g : r.State) {n : ℕ}
    → IsAligned s.counters n
    → 2 ≤ n
    → (i j li lj : ℕ) × (addr : Text) × (i ≢ j)
      × (i < n)
      × (j < n)
      × (get_elem? s.counters.inflight i ≡ some li)
      × (get_elem? s.counters.inflight j ≡ some lj)
      × (rank_i64 li ≤ rank_i64 lj)
      × (get_elem? s.counters.addrs i ≡ some addr)
      × (P2c.next r (s, g) ≡ (
        (record { counters = picked i s.counters }, r.advance (r.advance g)),
        some (addr, as_i32 i),
      ))
unfolding P2c.next
next-less_loaded r s g v two =
    let (i, j, li, lj, ne, i_lt, j_lt, ei, ej, le, chosen) = choose_lem r s.counters g v two in
    let (addr, a, pick) = pick_lem v i_lt in
    (i, j, li, lj, addr, ne, i_lt, j_lt, ei, ej, le, a, ground (arith, chosen, pick))

choose_single :
    (r : Rng) (c : Counters) (g : r.State) → length c.addrs ≤ 1 → (choose r c g).1 ≡ none
unfolding choose random_range
choose_single r c g h = ground arith

-- With one upstream or none, `P2C::next` always panics: the range that the second choice is drawn
-- from is empty. No count changes.
pub next-single :
    (r : Rng) (s : P2c) (g : r.State)
    → length s.counters.addrs ≤ 1
    → ((P2c.next r (s, g)).1 ≡ none) × ((P2c.next r (s, g)).0.0 ≡ s)
unfolding P2c.next
next-single r s g h = ground (arith, choose_single r s.counters g h)
