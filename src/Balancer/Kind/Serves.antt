-- ===== src/Balancer/Kind/Serves.antt =====
-- What the calls of a counting selector of upstream/balancer.rs do to its counters, for the three
-- kinds alike.
use service_proxy.Balancer.Counters.Laws.{IsAligned, picked, pick_lem, released, release_lem}
use service_proxy.Balancer.Counters.{Counters}
use service_proxy.Balancer.LeastConn
use service_proxy.Balancer.LeastConn.{LeastConn}
use service_proxy.Balancer.P2c
use service_proxy.Balancer.Kind.{
  SelectorKind, fixed, round_robin, counting_round_robin, least_conn, p2c, next, release, stats,
}
use service_proxy.Balancer.LeastConn.Minimum.{next-minimum}
use service_proxy.Balancer.P2c.Choice.{next-less_loaded, next-single}
use service_proxy.Balancer.P2c.{P2c}
use service_proxy.Balancer.RoundRobin.{
  CountingRoundRobin, counting_next, counting_release, counting_stats,
}
use service_proxy.Balancer.Rng.{Rng}
use service_proxy.Balancer.Counters.Stats.{cleared, stats_lem}
use native.Mathlib.Decide.{dec_lt}
use native.Mathlib.Nat.{mod-lt}
use service_proxy.Shared.{
  ℕ, ◌%◌, ◌^◌, ◌≤◌, ◌<◌, ◌≡◌, refl, subst, ◌⊎◌, inl, inr, Option, none, some, map, Bool, arith,
  get_elem?, ap, as_i32,
}
use service_proxy.Shared.Text.{Text}

abbrev pub counters_of : SelectorKind → Option Counters
counters_of (fixed s) = none
counters_of (round_robin s) = none
counters_of (counting_round_robin s) = some s.counters
counters_of (least_conn s) = some s.counters
counters_of (p2c s) = some s.counters

-- What `next` does to a counting selector with upstreams: it picks one in range and hands out its
-- index as the token, or it panics and leaves the counts alone.
abbrev pub Serves : ℕ → Counters → SelectorKind → Option (Text × ℕ) → Type 0
Serves n c k out =
    ((out ≡ none) × (counters_of k ≡ some c))
    ⊎ ((idx : ℕ) × (addr : Text) × (idx < n)
        × (get_elem? c.addrs idx ≡ some addr)
        × (out ≡ some (addr, as_i32 idx))
        × (counters_of k ≡ some (picked idx c)))

counting-Serves :
    {n : ℕ} (s : CountingRoundRobin)
    → 0 < n
    → IsAligned s.counters n
    → Serves n s.counters (counting_round_robin (counting_next s).0) (counting_next s).1
unfolding counting_next
counting-Serves {n} s pos v =
    let idx : ℕ = s.counter % n in
    let lt : idx < n = mod-lt s.counter pos in
    let (addr, a, pick) = pick_lem v lt in inr (idx, addr, lt, a, ground arith, ground arith)

least_conn-Serves :
    (r : Rng) {n : ℕ} (s : LeastConn) (g : r.State)
    → 0 < n
    → IsAligned s.counters n
    → Serves n s.counters (least_conn (LeastConn.next r (s, g)).0.0) (LeastConn.next r (s, g)).1
least_conn-Serves r s g pos v =
    let (best, load, addr, g', lt, a, e, least, step) = next-minimum r s g v pos in
    rw step (inr (best, addr, lt, a, refl, refl))

p2c-Serves :
    (r : Rng) {n : ℕ} (s : P2c) (g : r.State)
    → IsAligned s.counters n
    → Serves n s.counters (p2c (P2c.next r (s, g)).0.0) (P2c.next r (s, g)).1
p2c-Serves r {n} s g v = elim (dec_lt 1 n) [
  | yes two ↦
      let (i, j, li, lj, addr, ne, lt, lt', ei, ej, le, a, step) = next-less_loaded r s g v two in
      rw step (inr (i, addr, lt, a, refl, refl))
  | no one ↦
      let (out, same) = next-single r s g (omega (arith, v)) in
      inl (out, ap (λ s. some s.counters) same)
]

Serves-at :
    (n : ℕ) (k : SelectorKind) (out : Option (Text × ℕ)) (a c : Counters)
    → some a ≡ some c
    → (IsAligned a n → Serves n a k out)
    → IsAligned c n
    → Serves n c k out
Serves-at n k out a c e serves v =
    subst (λ c. IsAligned c n → Serves n c k out) (let e' : a ≡ c = cc in e') serves v

pub next-Serves :
    (r : Rng) {n : ℕ} (k : SelectorKind) (g : r.State) {c : Counters}
    → 0 < n
    → counters_of k ≡ some c
    → IsAligned c n
    → Serves n c (next r (k, g)).0.0 (next r (k, g)).1
unfolding next
next-Serves r (fixed s) g pos e v = absurd (cc)
next-Serves r (round_robin s) g pos e v = absurd (cc)
next-Serves r {n} (counting_round_robin s) g {c} pos e v =
    Serves-at n (counting_round_robin (counting_next s).0) _ s.counters c e (counting-Serves s pos)
      v
next-Serves r {n} (least_conn s) g {c} pos e v =
    Serves-at n (least_conn (LeastConn.next r (s, g)).0.0) _ s.counters c e
      (least_conn-Serves r s g pos) v
next-Serves r {n} (p2c s) g {c} pos e v =
    Serves-at n (p2c (P2c.next r (s, g)).0.0) _ s.counters c e (p2c-Serves r s g) v

-- `release` of a token in range takes one off its count.
pub release-released :
    {n token : ℕ} (k : SelectorKind) {c : Counters}
    → n ≤ 2 ^ 31
    → token < n
    → counters_of k ≡ some c
    → IsAligned c n
    → counters_of (release token k).0 ≡ some (released token c)
unfolding release LeastConn.release P2c.release counting_release
release-released (fixed s) small lt e v = absurd (cc)
release-released (round_robin s) small lt e v = absurd (cc)
release-released {n} {token} (counting_round_robin s) {c} small lt e v =
    let same : s.counters ≡ c = cc in rw same (rw (release_lem v small lt))
release-released {n} {token} (least_conn s) {c} small lt e v =
    let same : s.counters ≡ c = cc in rw same (rw (release_lem v small lt))
release-released {n} {token} (p2c s) {c} small lt e v =
    let same : s.counters ≡ c = cc in rw same (rw (release_lem v small lt))

-- `stats` may clear the totals only.
pub stats-inflight :
    (reset : Bool) {n : ℕ} (k : SelectorKind) {c : Counters}
    → counters_of k ≡ some c
    → IsAligned c n
    → counters_of (stats reset k).0 ≡ some (record c { total = map (cleared reset) c.total })
unfolding stats LeastConn.stats P2c.stats counting_stats
stats-inflight reset (fixed s) e v = absurd (cc)
stats-inflight reset (round_robin s) e v = absurd (cc)
stats-inflight reset (counting_round_robin s) {c} e v =
    let same : s.counters ≡ c = cc in rw same (rw (stats_lem reset v))
stats-inflight reset (least_conn s) {c} e v =
    let same : s.counters ≡ c = cc in rw same (rw (stats_lem reset v))
stats-inflight reset (p2c s) {c} e v =
    let same : s.counters ≡ c = cc in rw same (rw (stats_lem reset v))
