-- ===== src/Balancer/Races/Twice.antt =====
-- Two resets of the statistics of upstream/balancer.rs side by side.
use service_proxy.Balancer.Counters.{Counters, UpstreamStat, sub_total}
use service_proxy.Balancer.Races.{
  Caller, loading, clearing, reading, go, caller_step, System, moves, Reach, here, later,
}
use service_proxy.Shared.{
  ℕ, ◌^◌, ◌<◌, ◌≡◌, ◌≢◌, sym, ap, ◌∙◌, true, some, List, length, get_elem?, set, get_elem?-lt,
  get_elem?-set_self, get_elem?-set_ne, wrapping_sub, arith,
}

module _ (c : Counters) (v k : ℕ) (stats : List UpstreamStat)
    (found : get_elem? c.total (length stats) ≡ some v) where
  loads :
      length stats < length c.addrs
      → caller_step c (loading true stats) go ≡ some (c, clearing v stats)
  unfolding caller_step
  loads lt = ground (arith, found, lt)

  abbrev cleared : Counters
  cleared = record c { total = set c.total (length stats) (wrapping_sub v k) }

  clears : caller_step c (clearing k stats) go ≡ some (cleared, reading true k stats)
  unfolding caller_step sub_total
  clears = ground (arith, found)

-- The callers `i` and `j` at two places.
record At (s : System) (i j : ℕ) (a b : Caller) : Type 0 where
  left : get_elem? s.callers i ≡ some a
  right : get_elem? s.callers j ≡ some b

At-left :
    (s : System) (i j : ℕ) {a b : Caller} (c : Counters) (a' : Caller)
    → i ≢ j
    → At s i j a b
    → At (record { counters = c; callers = set s.callers i a' }) i j a' b
At-left s i j c a' apart v = record {
  left = get_elem?-set_self s.callers i a' (get_elem?-lt s.callers i v.left);
  right = get_elem?-set_ne s.callers i j a' apart ∙ v.right;
}

At-right :
    (s : System) (i j : ℕ) {a b : Caller} (c : Counters) (b' : Caller)
    → i ≢ j
    → At s i j a b
    → At (record { counters = c; callers = set s.callers j b' }) i j a b'
At-right s i j c b' apart v = record {
  left = get_elem?-set_ne s.callers j i b' (λ e. apart (sym e)) ∙ v.left;
  right = get_elem?-set_self s.callers j b' (get_elem?-lt s.callers j v.right);
}

-- Where two reports with a reset have come to the same upstream of total `v`, they can go on in such
-- an order that both report `v` and both take it off: the total is then `- v`, modulo 2 ^ 64.
pub resets-twice :
    (s : System) (i j v : ℕ) (stats stats' : List UpstreamStat)
    → i ≢ j
    → get_elem? s.callers i ≡ some (loading true stats)
    → get_elem? s.callers j ≡ some (loading true stats')
    → length stats ≡ length stats'
    → length stats < length s.counters.addrs
    → get_elem? s.counters.total (length stats) ≡ some v
    → v < 2 ^ 64
    → (u : System) × Reach s u
      × (get_elem? u.callers i ≡ some (reading true v stats))
      × (get_elem? u.callers j ≡ some (reading true v stats'))
      × (get_elem? u.counters.total (length stats) ≡ some (wrapping_sub 0 v))
resets-twice s i j v stats stats' apart left right same lt found small = (
  s4,
  later
      (later
        (later (later here (moves i go left (loads c v v stats found lt)))
          (moves j go at1.right (loads c v v stats' found' (omega (arith, same, lt)))))
        (moves i go at2.left (clears c v v stats found)))
      (moves j go at3.right (clears c1 0 v stats' found1)),
  at4.left,
  at4.right,
  ap (get_elem? c2.total) same
      ∙ get_elem?-set_self c1.total (length stats') (wrapping_sub 0 v)
          (get_elem?-lt c1.total (length stats') found1),
)
  where
    c : Counters
    c = s.counters

    found' : get_elem? c.total (length stats') ≡ some v
    found' = ap (get_elem? c.total) (sym same) ∙ found

    c1 : Counters
    c1 = cleared c v v stats found

    found1 : get_elem? c1.total (length stats') ≡ some 0
    found1 =
        ap (get_elem? c1.total) (sym same)
        ∙ get_elem?-set_self c.total (length stats) (wrapping_sub v v)
            (get_elem?-lt c.total (length stats) found)
        ∙ ap some (omega arith)

    c2 : Counters
    c2 = cleared c1 0 v stats' found1

    s1 : System
    s1 = record { counters = c; callers = set s.callers i (clearing v stats) }

    s2 : System
    s2 = record { counters = c; callers = set s1.callers j (clearing v stats') }

    s3 : System
    s3 = record { counters = c1; callers = set s2.callers i (reading true v stats) }

    s4 : System
    s4 = record { counters = c2; callers = set s3.callers j (reading true v stats') }

    at1 : At s1 i j (clearing v stats) (loading true stats')
    at1 = At-left s i j c (clearing v stats) apart (record { left = left; right = right })

    at2 : At s2 i j (clearing v stats) (clearing v stats')
    at2 = At-right s1 i j c (clearing v stats') apart at1

    at3 : At s3 i j (reading true v stats) (clearing v stats')
    at3 = At-left s2 i j c1 (reading true v stats) apart at2

    at4 : At s4 i j (reading true v stats) (reading true v stats')
    at4 = At-right s3 i j c2 (reading true v stats') apart at3
