-- ===== src/Balancer/Kind/InFlight.antt =====
-- The in-flight counts of upstream/balancer.rs in the states that a counting selector reaches, and
-- what the least-connections selector makes of them.
use service_proxy.Balancer.Counters.{Counters}
use service_proxy.Balancer.LeastConn
use service_proxy.Balancer.LeastConn.{LeastConn}
use service_proxy.Balancer.Kind.Serves.{counters_of}
use service_proxy.Balancer.Kind.{least_conn, next}
use service_proxy.Balancer.LeastConn.Minimum.{next-minimum}
use service_proxy.Balancer.Rng.{Rng}
use service_proxy.Shared.{
  ℕ, ◌%◌, ◌^◌, ◌≤◌, ◌<◌, ◌≡◌, subst, some, List, arith, length, get_elem?, ap, count,
  count-le-length, as_i32,
}
use service_proxy.Shared.Text.{Text}
use service_proxy.Balancer.Kind.Tracking.{
  Tracks, System, Reach, start, Counting, Reach-IsTracking, start-IsTracking,
}

-- In every state that a counting selector reaches from its start, by calls of `next` that succeed or
-- panic, by callers that give a token they hold back, and by reports, in any order, the in-flight
-- count of each upstream is the number of its tokens held, modulo 2 ^ 64. It holds for at least one
-- upstream and at most 2 ^ 31.
pub Reach-inflight :
    (r : Rng) (addrs : List Text) (strategy : Text) (g : r.State) {t : System r}
    → Counting strategy
    → 0 < length addrs
    → length addrs ≤ 2 ^ 31
    → Reach r (start r addrs strategy g) t
    → (c : Counters) × (counters_of t.kind ≡ some c)
      × ((i : ℕ) → i < length addrs → get_elem? c.inflight i ≡ some (count i t.held % 2 ^ 64))
Reach-inflight r addrs strategy g c pos small reach =
    let v = Reach-IsTracking pos small (start-IsTracking r addrs strategy g c) reach in
    (v.counters, v.counted, v.tracks.inflights)

fewest :
    (r : Rng) {n : ℕ} (held : List ℕ) (s : LeastConn) (g : r.State)
    → 0 < n
    → n ≤ 2 ^ 31
    → length held < 2 ^ 63
    → Tracks n held s.counters
    → (addr : Text) × (best : ℕ) × (best < n)
      × ((LeastConn.next r (s, g)).1 ≡ some (addr, best))
      × ((j : ℕ) → j < n → count best held ≤ count j held)
fewest r {n} held s g pos small few t =
    let (best, load, addr, g', lt, a, el, least, step) = next-minimum r s g t.aligned pos in
    let token : as_i32 best ≡ best = omega arith in
    let load_at : load ≡ count best held % 2 ^ 64 = ground (arith, t.inflights best lt) in
    (
      addr,
      best,
      lt,
      rw step (ap (λ k. some (addr, k)) token),
      λ j lt'. omega (
        arith,
        least j (count j held % 2 ^ 64) (t.inflights j lt'),
        count-le-length best held,
        count-le-length j held,
      ),
    )

-- In every state that a least-connections selector reaches from its start by calls of `next`,
-- tokens given back and reports, in any order, with fewer
-- than 2 ^ 63 tokens held, `next` hands out the token of an upstream of which no more tokens are held
-- than of any other. It holds for at least one upstream and at most 2 ^ 31.
pub least_conn-fewest :
    (r : Rng) (addrs : List Text) (strategy : Text) (g : r.State) {t : System r} (s : LeastConn)
    → Counting strategy
    → 0 < length addrs
    → length addrs ≤ 2 ^ 31
    → Reach r (start r addrs strategy g) t
    → t.kind ≡ least_conn s
    → length t.held < 2 ^ 63
    → (addr : Text) × (best : ℕ) × (best < length addrs)
      × ((next r (t.kind, t.gen)).1 ≡ some (addr, best))
      × ((j : ℕ) → j < length addrs → count best t.held ≤ count j t.held)
unfolding next
least_conn-fewest r addrs strategy g {t} s c pos small reach e few =
    let v = Reach-IsTracking pos small (start-IsTracking r addrs strategy g c) reach in
    let same : some s.counters ≡ some v.counters = rw (← v.counted, e) in
    let same' : v.counters ≡ s.counters = cc in
    rw e
      (fewest r t.held s t.gen pos small few (subst (Tracks (length addrs) t.held) same' v.tracks))
