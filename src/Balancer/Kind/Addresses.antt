-- ===== src/Balancer/Kind/Addresses.antt =====
-- The addresses that a selector of upstream/balancer.rs keeps and hands out.
use service_proxy.Balancer.Counters
use service_proxy.Balancer.Counters.{
  Counters, pick, stat_at, stats_from, clear_total, sub_total, add_total, add_inflight,
  sub_inflight,
}
use service_proxy.Balancer.Kind
use service_proxy.Balancer.Kind.{
  SelectorKind, fixed, round_robin, counting_round_robin, least_conn, p2c, new_selector,
  plain_selector, lb_round_robin, lb_least_conn, lb_p2c,
}
use service_proxy.Balancer.Kind.Tracking.{
  System, Step, takes, panics, gives, reports, Reach, here, later,
}
use service_proxy.Balancer.LeastConn
use service_proxy.Balancer.P2c
use service_proxy.Balancer.RoundRobin.{
  new_round_robin, new_counting, round_robin_next, fixed_next, counting_next, counting_release,
  fixed_release, round_robin_release, counting_stats, index_of,
}
use service_proxy.Balancer.Rng.{Rng}
use service_proxy.Shared.Text.{Text, ◌=?◌}
use mathlib.Core.Option
use service_proxy.Shared.{
  ℕ, suc, ◌≡◌, refl, sym, ap, ◌∙◌, inl, inr, Bool, some, List, [], ◌∷◌, length, get_elem?, arith,
  Option-cases, Bool-cases,
}

abbrev pub addrs_of : SelectorKind → List Text
addrs_of (fixed s) = s.addr ∷ []
addrs_of (round_robin s) = s.addrs
addrs_of (counting_round_robin s) = s.counters.addrs
addrs_of (least_conn s) = s.counters.addrs
addrs_of (p2c s) = s.counters.addrs

pick-addrs : (idx : ℕ) (c : Counters) → (pick idx c).0.addrs ≡ c.addrs
unfolding pick add_total add_inflight
pick-addrs idx c = ground arith

release-addrs : (token : ℕ) (c : Counters) → (Counters.release token c).0.addrs ≡ c.addrs
unfolding Counters.release sub_inflight
release-addrs token c = ground arith

stat_at-addrs :
    (reset : Bool) (i : ℕ) (addr : Text) (c : Counters) → (stat_at reset i addr c).0.addrs ≡ c.addrs
unfolding stat_at clear_total sub_total
stat_at-addrs reset i addr c = ground arith

stats_from-addrs :
    (reset : Bool) (i : ℕ) (xs : List Text) (c : Counters)
    → (stats_from reset i xs c).0.addrs ≡ c.addrs
unfolding stats_from
stats_from-addrs reset i [] c = refl
stats_from-addrs reset i (x ∷ xs) c =
    ground
      (arith, stat_at-addrs reset i x c, stats_from-addrs reset (suc i) xs (stat_at reset i x c).0)

stats-addrs : (reset : Bool) (c : Counters) → (Counters.stats reset c).0.addrs ≡ c.addrs
unfolding Counters.stats
stats-addrs reset c = stats_from-addrs reset 0 c.addrs c

-- No call changes the addresses.
next-addrs :
    (r : Rng) (k : SelectorKind) (g : r.State) → addrs_of (Kind.next r (k, g)).0.0 ≡ addrs_of k
unfolding Kind.next LeastConn.next P2c.next counting_next round_robin_next fixed_next
next-addrs r (fixed s) g = refl
next-addrs r (round_robin s) g = refl
next-addrs r (counting_round_robin s) g =
    elim (Option-cases (index_of s.counter (length s.counters.addrs))) [
      | inl missing ↦ rw missing refl
      | inr (idx, found) ↦ rw found (pick-addrs idx s.counters)
    ]
next-addrs r (least_conn s) g = elim (Option-cases (LeastConn.least_loaded r s.counters g).1) [
  | inl missing ↦ ground arith
  | inr (idx, found) ↦ ground (arith, pick-addrs idx s.counters)
]
next-addrs r (p2c s) g = elim (Option-cases (P2c.choose r s.counters g).1) [
  | inl missing ↦ ground arith
  | inr (idx, found) ↦ ground (arith, pick-addrs idx s.counters)
]

release_kind-addrs : (token : ℕ) (k : SelectorKind) → addrs_of (Kind.release token k).0 ≡ addrs_of k
unfolding Kind.release LeastConn.release P2c.release counting_release fixed_release
    round_robin_release
release_kind-addrs token (fixed s) = refl
release_kind-addrs token (round_robin s) = refl
release_kind-addrs token (counting_round_robin s) = release-addrs token s.counters
release_kind-addrs token (least_conn s) = release-addrs token s.counters
release_kind-addrs token (p2c s) = release-addrs token s.counters

stats_kind-addrs : (reset : Bool) (k : SelectorKind) → addrs_of (Kind.stats reset k).0 ≡ addrs_of k
unfolding Kind.stats LeastConn.stats P2c.stats counting_stats
stats_kind-addrs reset (fixed s) = refl
stats_kind-addrs reset (round_robin s) = refl
stats_kind-addrs reset (counting_round_robin s) = stats-addrs reset s.counters
stats_kind-addrs reset (least_conn s) = stats-addrs reset s.counters
stats_kind-addrs reset (p2c s) = stats-addrs reset s.counters

Step-addrs : {r : Rng} {s t : System r} → Step r s t → addrs_of t.kind ≡ addrs_of s.kind
Step-addrs {r} {s} (takes {k} {g} addr token e) =
    ap (λ p. addrs_of p.0.0) (sym e) ∙ next-addrs r s.kind s.gen
Step-addrs {r} {s} (panics {k} {g} e) = ap (λ p. addrs_of p.0.0) (sym e) ∙ next-addrs r s.kind s.gen
Step-addrs {r} {s} (gives before token after e) = release_kind-addrs token s.kind
Step-addrs {r} {s} (reports reset) = stats_kind-addrs reset s.kind

pub Reach-addrs : {r : Rng} {s t : System r} → Reach r s t → addrs_of t.kind ≡ addrs_of s.kind
Reach-addrs here = refl
Reach-addrs (later reach step) = Step-addrs step ∙ Reach-addrs reach

pub start-addrs :
    (addrs : List Text) (strategy : Text) → addrs_of (new_selector addrs strategy) ≡ addrs
unfolding new_selector plain_selector new_round_robin new_counting LeastConn.new P2c.new
    Counters.new
start-addrs addrs strategy = elim (Bool-cases (strategy =? lb_round_robin)) [
  | inl one ↦ rw one refl
  | inr other ↦ elim (Bool-cases (strategy =? lb_least_conn)) [
    | inl two ↦ rw (other, two) refl
    | inr other' ↦ elim (Bool-cases (strategy =? lb_p2c)) [
      | inl three ↦ rw (other, other', three) refl
      | inr other'' ↦ rw (other, other', other'') (plain addrs)
    ]
  ]
]
  where
    plain : (addrs : List Text) → addrs_of (plain_selector addrs) ≡ addrs
    plain [] = refl
    plain (a ∷ []) = refl
    plain (a ∷ b ∷ rest) = refl

pick-member :
    (idx : ℕ) (c : Counters) (addr : Text) (token : ℕ)
    → (pick idx c).1 ≡ some (addr, token)
    → get_elem? c.addrs idx ≡ some addr
unfolding pick add_total add_inflight
pick-member idx c addr token e = ground arith

-- What `next` hands out is one of the addresses.
pub next-member :
    (r : Rng) (k : SelectorKind) (g : r.State) (addr : Text) (token : ℕ)
    → (Kind.next r (k, g)).1 ≡ some (addr, token)
    → (i : ℕ) × (get_elem? (addrs_of k) i ≡ some addr)
unfolding Kind.next LeastConn.next P2c.next counting_next round_robin_next fixed_next Option.bind
next-member r (fixed s) g addr token e = (0, ground arith)
next-member r (round_robin s) g addr token e =
    elim (Option-cases (index_of s.counter (length s.addrs))) [
      | inl missing ↦ absurd (ground arith)
      | inr (idx, found) ↦ (idx, ground arith)
    ]
next-member r (counting_round_robin s) g addr token e =
    elim (Option-cases (index_of s.counter (length s.counters.addrs))) [
      | inl missing ↦ absurd (ground arith)
      | inr (idx, found) ↦ (idx, ground (arith, pick-member idx s.counters addr token))
    ]
next-member r (least_conn s) g addr token e =
    elim (Option-cases (LeastConn.least_loaded r s.counters g).1) [
      | inl missing ↦ absurd (ground arith)
      | inr (idx, found) ↦ (idx, ground (arith, pick-member idx s.counters addr token))
    ]
next-member r (p2c s) g addr token e = elim (Option-cases (P2c.choose r s.counters g).1) [
  | inl missing ↦ absurd (ground arith)
  | inr (idx, found) ↦ (idx, ground (arith, pick-member idx s.counters addr token))
]
