-- ===== src/Balancer/Races/Exact.antt =====
-- Calls of a counting selector side by side, as upstream/balancer.rs makes them: what the counts add
-- up to.
use service_proxy.Balancer.Counters
use service_proxy.Balancer.Counters.{
  Counters, UpstreamStat, add_total, sub_total, add_inflight, sub_inflight,
}
use service_proxy.Balancer.Races.{
  Caller, choosing, loading, System, init, Step, moves, Reach, here, later,
}
use service_proxy.Balancer.Races.Adds.{inside, counted, taken_off, Adds, Adds-equal}
use service_proxy.Balancer.Races.Steps.{oversized, Fits, step-Fits}
use service_proxy.Shared.Text.{Text}
use service_proxy.Shared.{
  ℕ, ◌+◌, ◌%◌, ◌^◌, ◌≤◌, ◌<◌, ◌≡◌, refl, sym, true, false, some, List, [], ◌++◌, length, get_elem?,
  set, replicate, total, total-replicate, others_before, others_after, total-set, le-total,
  total-append, length-replicate, get_elem?-replicate, arith,
}

-- The counts are what the callers add up to.
record Exact (n : ℕ) (s : System) : Type 0 where
  adds :
      Adds n s.counters
        (λ i. total (inside i) s.callers)
        (λ i. total (counted i) s.callers)
        (λ i. total (taken_off i) s.callers)
  sized : total oversized s.callers ≡ 0

Step-Exact : {n : ℕ} {s u : System} → n ≤ 2 ^ 31 → Step s u → Exact n s → Exact n u
Step-Exact {n} {s} few (moves k e {t} {t'} {c} at step) v = record {
  adds =
      Adds-equal (λ i. others_after (inside i) {z = choosing} refl s.callers k t at t')
        (λ i. others_after (counted i) {z = choosing} refl s.callers k t at t')
        (λ i. others_after (taken_off i) {z = choosing} refl s.callers k t at t') after.adds;
  sized = omega (arith, after.sized, total-set oversized s.callers k t t' at, v.sized);
}
  where
    others : (Caller → ℕ) → ℕ
    others w = total w (set s.callers k choosing)

    before :
        Fits n
          (λ i. others (inside i))
          (λ i. others (counted i))
          (λ i. others (taken_off i))
          s.counters
          t
    before = record {
      adds =
          Adds-equal (λ i. sym (others_before (inside i) {z = choosing} refl s.callers k t at))
            (λ i. sym (others_before (counted i) {z = choosing} refl s.callers k t at))
            (λ i. sym (others_before (taken_off i) {z = choosing} refl s.callers k t at)) v.adds;
      sized = omega (arith, v.sized, le-total oversized s.callers k t at);
    }

    after :
        Fits n (λ i. others (inside i)) (λ i. others (counted i)) (λ i. others (taken_off i)) c t'
    after =
        step-Fits n (λ i. others (inside i)) (λ i. others (counted i)) (λ i. others (taken_off i))
          few s.counters c t' t e step before

init-Exact :
    (addrs : List Text) (requests reports resets : ℕ)
    → Exact (length addrs) (init addrs requests reports resets)
unfolding Counters.new
init-Exact addrs requests reports resets = record {
  adds = record {
    addrs_length = refl;
    inflight_length = length-replicate (length addrs) 0;
    inflights =
        λ i lt. rw (quiet (inside i) refl refl refl) (get_elem?-replicate (length addrs) 0 i lt);
    totals = λ i lt. (
      0,
      get_elem?-replicate (length addrs) 0 i lt,
      omega arith,
      rw (quiet (taken_off i) refl refl refl, quiet (counted i) refl refl refl) refl,
    );
  };
  sized = quiet oversized refl refl refl;
}
  where
    quiet :
        (w : Caller → ℕ)
        → w choosing ≡ 0
        → w (loading false []) ≡ 0
        → w (loading true []) ≡ 0
        → total w (init addrs requests reports resets).callers ≡ 0
    quiet w p q r = omega (
      arith,
      total-append w (replicate requests choosing)
          (replicate reports (loading false []) ++ replicate resets (loading true [])),
      total-append w (replicate reports (loading false [])) (replicate resets (loading true [])),
      total-replicate w requests choosing p,
      total-replicate w reports (loading false []) q,
      total-replicate w resets (loading true []) r,
    )

Reach-Exact :
    (addrs : List Text) (requests reports resets : ℕ) {s : System}
    → length addrs ≤ 2 ^ 31
    → Reach (init addrs requests reports resets) s
    → Exact (length addrs) s
Reach-Exact addrs requests reports resets few here = init-Exact addrs requests reports resets
Reach-Exact addrs requests reports resets few (later reach step) =
    Step-Exact few step (Reach-Exact addrs requests reports resets few reach)

-- While `requests` calls of `next` with their `release` and `reports` reports of the statistics
-- without a reset and `resets` with one run side by side on new counters, in every state that they
-- reach, however their accesses of the atomics interleave and whichever upstreams `next` chooses: for
-- each upstream, the in-flight count is the number of callers that hold it, modulo 2 ^ 64; and the
-- total together with all that the resets have taken off it is the number of its picks that have been
-- counted, modulo 2 ^ 64. It holds for at most 2 ^ 31 upstreams.
pub Reach-exact :
    (addrs : List Text) (requests reports resets : ℕ) {s : System}
    → length addrs ≤ 2 ^ 31
    → Reach (init addrs requests reports resets) s
    → (i : ℕ) → i < length addrs
    → (get_elem? s.counters.inflight i ≡ some (total (inside i) s.callers % 2 ^ 64))
      × (v : ℕ) × (get_elem? s.counters.total i ≡ some v)
      × ((v + total (taken_off i) s.callers) % 2 ^ 64 ≡ total (counted i) s.callers % 2 ^ 64)
Reach-exact addrs requests reports resets few reach i lt =
    let e = Reach-Exact addrs requests reports resets few reach in
    let (v, at, small, sum) = e.adds.totals i lt in (e.adds.inflights i lt, v, at, sum)
