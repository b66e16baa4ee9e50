-- ===== src/Balancer/Counters/Stats.antt =====
-- What `Counters::stats` of upstream/balancer.rs reports and what it leaves.
use service_proxy.Balancer.Counters.Laws.{IsAligned}
use service_proxy.Balancer.Counters.{
  Counters, UpstreamStat, stats, stats_from, stat_at, clear_total, sub_total,
}
use service_proxy.Shared.{
  ℕ, suc, ◌≡◌, refl, subst, ap, ◌∙◌, Bool, some, List, [], ◌∷◌, ◌++◌, map, append_assoc, arith,
  length, get_elem?, set, set-get_elem?, get_elem?-middle, set-middle, length-append, replicate,
  true, if◌then◌else◌,
}
use service_proxy.Shared.Text.{Text}

-- A total after a report.
abbrev pub cleared : Bool → ℕ → ℕ
cleared reset t = if reset then 0 else t

-- The three vectors read side by side.
abbrev pub side_by_side : List Text → List ℕ → List ℕ → List UpstreamStat
side_by_side (a ∷ as') (t ∷ ts) (l ∷ ls) =
    record { addr = a; total = t; inflight = l } ∷ side_by_side as' ts ls
side_by_side _ _ _ = []

stat_at_lem :
    (reset : Bool) (i : ℕ) (addr : Text) (c : Counters) {t l : ℕ}
    → get_elem? c.total i ≡ some t
    → get_elem? c.inflight i ≡ some l
    → stat_at reset i addr c ≡ (
      record c { total = set c.total i (cleared reset t) },
      some (record { addr = addr; total = t; inflight = l }),
    )
unfolding stat_at clear_total sub_total
stat_at_lem reset i addr c {t} et el = ground (arith, set-get_elem? c.total i et)

abbrev whole : List Text → List ℕ → List ℕ → Counters
whole addrs ts ls = record { addrs = addrs; total = ts; inflight = ls }

length-snoc : (xs : List ℕ) (x : ℕ) → length (xs ++ x ∷ []) ≡ suc (length xs)
length-snoc xs x = omega (arith, length-append xs (x ∷ []))

-- One round of the loop, with the entries before it already done.
stats_from_step :
    (reset : Bool) (addrs : List Text) (addr : Text) (xs : List Text) (ts0 : List ℕ) (t : ℕ)
    (ts ls0 : List ℕ) (l : ℕ) (ls : List ℕ)
    → length ls0 ≡ length ts0
    → {r : List UpstreamStat}
    → stats_from reset
        (suc (length ts0))
        xs
        (whole addrs (ts0 ++ cleared reset t ∷ ts) (ls0 ++ l ∷ ls))
      ≡ (whole addrs (ts0 ++ cleared reset t ∷ map (cleared reset) ts) (ls0 ++ l ∷ ls), some r)
    → stats_from reset (length ts0) (addr ∷ xs) (whole addrs (ts0 ++ t ∷ ts) (ls0 ++ l ∷ ls)) ≡ (
      whole addrs (ts0 ++ cleared reset t ∷ map (cleared reset) ts) (ls0 ++ l ∷ ls),
      some (record { addr = addr; total = t; inflight = l } ∷ r),
    )
unfolding stats_from
stats_from_step reset addrs addr xs ts0 t ts ls0 l ls e ih =
    let load : get_elem? (ls0 ++ l ∷ ls) (length ts0) ≡ some l =
      subst (λ i. get_elem? (ls0 ++ l ∷ ls) i ≡ some l) e (get_elem?-middle ls0 l ls) in
    let here =
      stat_at_lem reset (length ts0) addr (whole addrs (ts0 ++ t ∷ ts) (ls0 ++ l ∷ ls))
        (get_elem?-middle ts0 t ts) load in
    rw (here, set-middle ts0 t ts (cleared reset t), ih)

stats_from_lem :
    (reset : Bool) (addrs xs : List Text) (ts0 ts ls0 ls : List ℕ)
    → length ls0 ≡ length ts0
    → length ts ≡ length xs
    → length ls ≡ length xs
    → stats_from reset (length ts0) xs (whole addrs (ts0 ++ ts) (ls0 ++ ls))
      ≡ (whole addrs (ts0 ++ map (cleared reset) ts) (ls0 ++ ls), some (side_by_side xs ts ls))
unfolding stats_from
stats_from_lem reset addrs [] ts0 [] ls0 [] e et el = refl
stats_from_lem reset addrs [] ts0 (t ∷ ts) ls0 ls e et el = absurd (omega arith)
stats_from_lem reset addrs [] ts0 [] ls0 (l ∷ ls) e et el = absurd (omega arith)
stats_from_lem reset addrs (x ∷ xs) ts0 [] ls0 ls e et el = absurd (omega arith)
stats_from_lem reset addrs (x ∷ xs) ts0 (t ∷ ts) ls0 [] e et el = absurd (omega arith)
stats_from_lem reset addrs (x ∷ xs) ts0 (t ∷ ts) ls0 (l ∷ ls) e et el =
    stats_from_step reset addrs x xs ts0 t ts ls0 l ls e (
      simp (append_assoc, length-snoc) at
        (stats_from_lem reset addrs xs (ts0 ++ cleared reset t ∷ []) ts (ls0 ++ l ∷ []) ls
          (omega (arith, length-snoc ts0 (cleared reset t), length-snoc ls0 l)) (omega arith)
          (omega arith)))

-- A report reads every entry, and a reset clears the totals and nothing else.
pub stats_lem :
    (reset : Bool) {c : Counters} {n : ℕ}
    → IsAligned c n
    → stats reset c ≡ (
      record c { total = map (cleared reset) c.total },
      some (side_by_side c.addrs c.total c.inflight),
    )
unfolding stats
stats_lem reset {c} v =
    stats_from_lem reset c.addrs c.addrs [] c.total [] c.inflight refl (omega (arith, v))
      (omega (arith, v))

map-cleared : (ts : List ℕ) → map (cleared true) ts ≡ replicate (length ts) 0
map-cleared [] = refl
map-cleared (t ∷ ts) = ap (◌∷◌ 0) (map-cleared ts)

length-map-cleared : (reset : Bool) (ts : List ℕ) → length (map (cleared reset) ts) ≡ length ts
length-map-cleared reset [] = refl
length-map-cleared reset (t ∷ ts) = ap suc (length-map-cleared reset ts)

pub cleared-IsAligned :
    (reset : Bool) {c : Counters} {n : ℕ}
    → IsAligned c n
    → IsAligned (record c { total = map (cleared reset) c.total }) n
cleared-IsAligned reset {c} v = record {
  addrs_length = v.addrs_length;
  total_length = length-map-cleared reset c.total ∙ v.total_length;
  inflight_length = v.inflight_length;
}

-- A report with a reset shows every address with its total and its in-flight count; the next report
-- shows the same addresses and in-flight counts, with every total at zero. Both are for counters
-- whose three vectors have the same length.
pub stats_reset :
    (again : Bool) {c : Counters} {n : ℕ}
    → IsAligned c n
    → ((stats true c).1 ≡ some (side_by_side c.addrs c.total c.inflight))
      × ((stats again (stats true c).0).1 ≡ some (side_by_side c.addrs (replicate n 0) c.inflight))
stats_reset again {c} {n} v = (
  rw (stats_lem true v),
  rw (
    stats_lem true v,
    stats_lem again (cleared-IsAligned true v),
    map-cleared c.total,
    v.total_length,
  ),
)
