-- ===== src/Balancer/LeastConn/Minimum.antt =====
-- The choice of `LeastConn::next` of upstream/balancer.rs.
use service_proxy.Balancer.Counters.Laws.{IsAligned, picked, pick_lem}
use service_proxy.Balancer.Counters.{Counters}
use service_proxy.Balancer.LeastConn
use service_proxy.Balancer.LeastConn.{LeastConn, Best, break_tie, consider, scan, least_loaded}
use service_proxy.Balancer.Rng.{Rng}
use service_proxy.Shared.{
  ℕ, zero, suc, ◌+◌, ◌-◌, ◌≤◌, ◌<◌, ◌≡◌, refl, ap, subst, ◌∙◌, inl, inr, some, List, arith, length,
  get_elem?, get_elem?-total, get_elem?-lt, as_i32, ◌==◌, ==_iff, Bool-cases, lt_i64, rank_i64,
}
use service_proxy.Shared.Text.{Text}
use native.Mathlib.Nat.{add-zero}

-- The variables of the loop after the entries below `i`.
record Sound (inflight : List ℕ) (i : ℕ) (b : Best) : Type 0 where
  seen : b.best < i
  load_at : get_elem? inflight b.best ≡ some b.best_load
  least : (j l : ℕ) → j < i → get_elem? inflight j ≡ some l → rank_i64 b.best_load ≤ rank_i64 l

-- What a new entry does to the variables: it takes over, it ties, or it is passed over.
module _ (inflight : List ℕ) (i load : ℕ) (b : Best) where
  Sound-replace :
      get_elem? inflight i ≡ some load
      → rank_i64 load ≤ rank_i64 b.best_load
      → Sound inflight i b
      → (n : ℕ) → Sound inflight (suc i) (record { best = i; best_load = load; ties = n })
  Sound-replace e h s n = record {
    seen = omega arith;
    load_at = e;
    least = λ j l lt el. ground (arith, s.least j l);
  }

  Sound-keep :
      get_elem? inflight i ≡ some load
      → rank_i64 b.best_load ≤ rank_i64 load
      → Sound inflight i b
      → (n : ℕ) → Sound inflight (suc i) (record b { ties = n })
  Sound-keep e h s n = record {
    seen = omega (arith, s.seen);
    load_at = s.load_at;
    least = λ j l lt el. ground (arith, s.least j l);
  }

module _ (r : Rng) (inflight : List ℕ) where
  break_tie-Sound :
      (i : ℕ) (b : Best) (g : r.State)
      → get_elem? inflight i ≡ some b.best_load
      → Sound inflight i b
      → (b' : Best) × (g' : r.State) × (break_tie r i b g ≡ (g', some b'))
        × Sound inflight (suc i) b'
  unfolding break_tie
  break_tie-Sound i b g e s = elim (Bool-cases (r.sample g (b.ties + 1) == 0)) [
    | inl hit ↦ (
      record { best = i; best_load = b.best_load; ties = b.ties + 1 },
      r.advance g,
      ground arith,
      Sound-replace inflight i b.best_load b e (omega arith) s (b.ties + 1),
    )
    | inr miss ↦ (
      record b { ties = b.ties + 1 },
      r.advance g,
      ground arith,
      Sound-keep inflight i b.best_load b e (omega arith) s (b.ties + 1),
    )
  ]

  consider-Sound :
      (i load : ℕ) (b : Best) (g : r.State)
      → get_elem? inflight i ≡ some load
      → Sound inflight i b
      → (b' : Best) × (g' : r.State) × (consider r i load b g ≡ (g', some b'))
        × Sound inflight (suc i) b'
  unfolding consider
  consider-Sound i load b g e s = elim (Bool-cases (lt_i64 load b.best_load)) [
    | inl less ↦ (
      record { best = i; best_load = load; ties = 1 },
      g,
      rw less,
      Sound-replace inflight i load b e (ground arith) s 1,
    )
    | inr not_less ↦ elim (Bool-cases (load == b.best_load)) [
      | inl tie ↦
          rw (not_less, tie)
            (break_tie-Sound i b g (e ∙ ap some ((==_iff load b.best_load).0 tie)) s)
      | inr more ↦
          (b, g, rw (not_less, more), Sound-keep inflight i load b e (ground arith) s b.ties)
    ]
  ]

  scan-Sound :
      (rounds i : ℕ) (b : Best) (g : r.State)
      → Sound inflight i b
      → i + rounds ≤ length inflight
      → (b' : Best) × (g' : r.State) × (scan r inflight rounds i b g ≡ (g', some b'))
        × Sound inflight (i + rounds) b'
  unfolding scan
  scan-Sound zero i b g s h = (b, g, refl, rw add-zero s)
  scan-Sound (suc rounds) i b g s h =
      let (load, e) = get_elem?-total inflight i (omega arith) in
      let (b', g', step, s') = consider-Sound i load b g e s in
      let (b'', g'', rest, s'') = scan-Sound rounds (suc i) b' g' s' (omega arith) in
      (b'', g'', rw (e, step) rest, subst (λ k. Sound inflight k b'') (omega arith) s'')

-- The choice succeeds, and no entry is smaller as a signed number.
pub least_loaded_lem :
    (r : Rng) (c : Counters) (g : r.State) {n : ℕ}
    → IsAligned c n
    → 0 < n
    → (best load : ℕ) × (g' : r.State) × (least_loaded r c g ≡ (g', some best))
      × (best < n)
      × (get_elem? c.inflight best ≡ some load)
      × ((j l : ℕ) → get_elem? c.inflight j ≡ some l → rank_i64 load ≤ rank_i64 l)
unfolding least_loaded
least_loaded_lem r c g {n} v pos =
    let (load, e) = get_elem?-total c.inflight 0 (omega (arith, v)) in
    let first : Best = record { best = 0; best_load = load; ties = 1 } in
    let start : Sound c.inflight 1 first = record {
      seen = omega arith;
      load_at = e;
      least = λ j l lt el. ground arith;
    } in
    let (b, g', done, s) =
      scan-Sound r c.inflight (length c.addrs - 1) 1 first g start (omega (arith, v)) in
    let bound : b.best < n = omega (arith, s.seen, v) in
    (
      b.best,
      b.best_load,
      g',
      rw (e, done),
      bound,
      s.load_at,
      λ j l el. s.least j l (omega (arith, get_elem?-lt c.inflight j el, v)) el,
    )

-- With at least one upstream, `LeastConn::next` never panics, whatever random numbers are drawn: it
-- picks an upstream whose in-flight count, as a signed number, is at most that of every upstream,
-- counts the pick, and returns its address with the index as the token.
pub next-minimum :
    (r : Rng) (s : LeastConn) (g : r.State) {n : ℕ}
    → IsAligned s.counters n
    → 0 < n
    → (best load : ℕ) × (addr : Text) × (g' : r.State) × (best < n)
      × (get_elem? s.counters.addrs best ≡ some addr)
      × (get_elem? s.counters.inflight best ≡ some load)
      × ((j l : ℕ) → get_elem? s.counters.inflight j ≡ some l → rank_i64 load ≤ rank_i64 l)
      × (LeastConn.next r (s, g)
          ≡ ((record { counters = picked best s.counters }, g'), some (addr, as_i32 best)))
unfolding LeastConn.next
next-minimum r s g v pos =
    let (best, load, g', chosen, bound, e, least) = least_loaded_lem r s.counters g v pos in
    let (addr, a, pick) = pick_lem v bound in
    (best, load, addr, g', bound, a, e, least, ground (arith, chosen, pick))
