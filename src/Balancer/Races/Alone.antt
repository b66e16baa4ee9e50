-- ===== src/Balancer/Races/Alone.antt =====
-- A report that runs alone, one access at a time, is `Counters::stats` of upstream/balancer.rs.
use service_proxy.Balancer.Counters.{
  Counters, UpstreamStat, sub_total, clear_total, stat_at, stats_from, stats,
}
use service_proxy.Balancer.Races.{
  Caller, loading, clearing, reading, reported, go, caller_step, System, moves, Reach, here, later,
}
use service_proxy.Shared.Text.{Text}
use service_proxy.Shared.{
  ℕ, suc, ◌≡◌, refl, sym, ap, ◌∙◌, inl, inr, Bool, true, false, some, List, [], ◌∷◌, ◌++◌, length,
  length-append, get_elem?, get_elem?-lt, get_elem?-middle, set, append-nil, append_assoc,
  wrapping_sub, arith, Option-cases, subst,
}

-- One caller and no other.
abbrev pub one : Counters → Caller → System
one c t = record { counters = c; callers = t ∷ [] }

Reach-trans : {s t u : System} → Reach s t → Reach t u → Reach s u
Reach-trans r here = r
Reach-trans r (later q step) = later (Reach-trans r q) step

then :
    {s : System} {c c' : Counters} {t t' : Caller}
    → Reach s (one c t)
    → caller_step c t go ≡ some (c', t')
    → Reach s (one c' t')
then reach h = later reach (moves 0 go refl h)

-- The accesses of one round.
module _ (c : Counters) (done : List UpstreamStat) (addr : Text)
    (named : get_elem? c.addrs (length done) ≡ some addr) where
  loads-keep :
      (x : ℕ)
      → get_elem? c.total (length done) ≡ some x
      → caller_step c (loading false done) go ≡ some (c, reading false x done)
  unfolding caller_step
  loads-keep x found = ground (arith, found, get_elem?-lt c.addrs (length done) named)

  loads-clear :
      (x : ℕ)
      → get_elem? c.total (length done) ≡ some x
      → caller_step c (loading true done) go ≡ some (c, clearing x done)
  unfolding caller_step
  loads-clear x found = ground (arith, found, get_elem?-lt c.addrs (length done) named)

  abbrev cleared : ℕ → Counters
  cleared x = record c { total = set c.total (length done) (wrapping_sub x x) }

  clears :
      (x : ℕ)
      → get_elem? c.total (length done) ≡ some x
      → caller_step c (clearing x done) go ≡ some (cleared x, reading true x done)
  unfolding caller_step sub_total
  clears x found = ground (arith, found)

  -- The entry of the report is what the round adds.
  enters :
      (reset : Bool) (x k : ℕ) (s : UpstreamStat)
      → get_elem? c.inflight (length done) ≡ some k
      → ◌≡◌ {A = UpstreamStat} (record { addr = addr; total = x; inflight = k }) s
      → caller_step c (reading reset x done) go ≡ some (c, loading reset (done ++ s ∷ []))
  unfolding caller_step
  enters reset x k s entered e = ground (arith, named, entered, e)

-- One round of the iterator.
module _ (c c' : Counters) (done : List UpstreamStat) (addr : Text) (s : UpstreamStat)
    (named : get_elem? c.addrs (length done) ≡ some addr) where
  abbrev Round : Bool → Type 0
  Round reset =
      Reach (one c (loading reset done)) (one c' (loading reset (done ++ s ∷ [])))
      × (c'.addrs ≡ c.addrs)

  keeps : stat_at false (length done) addr c ≡ (c', some s) → Round false
  unfolding stat_at clear_total
  keeps h = elim (Option-cases (get_elem? c.total (length done))) [
    | inl out ↦ absurd (ground (arith, out, h))
    | inr (x, found) ↦ elim (Option-cases (get_elem? c.inflight (length done))) [
      | inl out ↦ absurd (ground (arith, found, out, h))
      | inr (k, entered) ↦
          let same : c ≡ c' = ground (arith, found, entered, h) in
          let stat : ◌≡◌ {A = UpstreamStat} (record { addr = addr; total = x; inflight = k }) s =
            ground (arith, found, entered, h) in
          subst
            (λ d.
              Reach (one c (loading false done)) (one d (loading false (done ++ s ∷ [])))
              × (d.addrs ≡ c.addrs))
            same
            (
              then (then here (loads-keep c done addr named x found))
                  (enters c done addr named false x k s entered stat),
              refl,
            )
    ]
  ]

  resets : stat_at true (length done) addr c ≡ (c', some s) → Round true
  unfolding stat_at clear_total sub_total
  resets h = elim (Option-cases (get_elem? c.total (length done))) [
    | inl out ↦ absurd (ground (arith, out, h))
    | inr (x, found) ↦ elim (Option-cases (get_elem? c.inflight (length done))) [
      | inl out ↦ absurd (ground (arith, found, out, h))
      | inr (k, entered) ↦
          let d = cleared c done addr named x in
          let same : d ≡ c' = ground (arith, found, entered, h) in
          let stat : ◌≡◌ {A = UpstreamStat} (record { addr = addr; total = x; inflight = k }) s =
            ground (arith, found, entered, h) in
          subst
            (λ d'.
              Reach (one c (loading true done)) (one d' (loading true (done ++ s ∷ [])))
              × (d'.addrs ≡ c.addrs))
            same
            (
              then
                  (then (then here (loads-clear c done addr named x found))
                    (clears c done addr named x found))
                  (enters d done addr named true x k s entered stat),
              refl,
            )
    ]
  ]

  round : (reset : Bool) → stat_at reset (length done) addr c ≡ (c', some s) → Round reset
  round true h = resets h
  round false h = keeps h

-- The rounds at `addrs`, the upstreams behind those that the report has already.
rounds :
    (reset : Bool) (addrs before : List Text) (c c' : Counters) (done out : List UpstreamStat)
    → c.addrs ≡ before ++ addrs
    → length before ≡ length done
    → stats_from reset (length done) addrs c ≡ (c', some out)
    → Reach (one c (loading reset done)) (one c' (loading reset (done ++ out)))
      × (c'.addrs ≡ c.addrs)
      × (length out ≡ length addrs)
unfolding stats_from
rounds reset [] before c c' done out split same h =
    let still : c ≡ c' = cc in
    let empty : [] ≡ out = cc in
    (
      subst (λ d. Reach (one c (loading reset done)) (one d (loading reset (done ++ out)))) still
          (subst (λ l. Reach (one c (loading reset done)) (one c (loading reset l)))
            (sym (append-nil done) ∙ ap (λ l. done ++ l) empty) here),
      ap (λ (d : Counters). d.addrs) (sym still),
      ap length (sym empty),
    )
rounds reset (addr ∷ addrs) before c c' done out split same h =
    elim (Option-cases (stat_at reset (length done) addr c).1) [
      | inl broke ↦ absurd (ground (arith, broke, h))
      | inr (s, got) ↦
          let d = (stat_at reset (length done) addr c).0 in
          elim (Option-cases (stats_from reset (suc (length done)) addrs d).1) [
            | inl broke ↦ absurd (ground (arith, got, broke, h))
            | inr (rest, more) ↦
                let whole : s ∷ rest ≡ out = ground (arith, got, more, h) in
                let last : (stats_from reset (suc (length done)) addrs d).0 ≡ c' =
                  ground (arith, got, more, h) in
                let (reach, kept) =
                  round c d done addr s
                    (rw split (
                      ap (get_elem? (before ++ addr ∷ addrs)) (sym same)
                      ∙ get_elem?-middle before addr addrs))
                    reset (ap (λ o. (d, o)) got) in
                let (onwards, kept', long) =
                  rounds reset addrs (before ++ addr ∷ []) d c' (done ++ s ∷ []) rest
                    (kept ∙ split ∙ sym (append_assoc before (addr ∷ []) addrs))
                    (omega
                      (arith, same, length-append before (addr ∷ []), length-append done (s ∷ [])))
                    (ap (λ k. stats_from reset k addrs d)
                        (omega (arith, length-append done (s ∷ [])))
                      ∙ ap (λ e. (e, (stats_from reset (suc (length done)) addrs d).1)) last
                      ∙ ap (λ o. (c', o)) more) in
                (
                  Reach-trans reach (
                      subst
                        (λ l.
                          Reach (one d (loading reset (done ++ s ∷ []))) (one c' (loading reset l)))
                        (append_assoc done (s ∷ []) rest ∙ ap (λ l. done ++ l) whole) onwards),
                  kept' ∙ kept,
                  ap length (sym whole) ∙ ap suc long,
                )
          ]
    ]

-- The two models of a report agree: where `Counters::stats` succeeds, a report that runs alone, one
-- access of a counter at a time, comes to an end with the same counters and the same statistics.
pub stats-alone :
    (reset : Bool) (c c' : Counters) (out : List UpstreamStat)
    → stats reset c ≡ (c', some out)
    → Reach (one c (loading reset [])) (one c' (reported reset out))
unfolding stats caller_step
stats-alone reset c c' out h =
    let (reach, kept, long) = rounds reset c.addrs [] c c' [] out refl refl h in
    then reach (ground (arith, ap length kept, long))
