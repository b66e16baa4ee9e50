-- ===== src/Balancer/Races/Steps.antt =====
-- The accesses of one caller of upstream/balancer.rs, next to the others.
use service_proxy.Balancer.Counters.{
  Counters, UpstreamStat, add_total, sub_total, add_inflight, sub_inflight,
}
use service_proxy.Balancer.Races.{
  Caller, choosing, counting, entering, holding, returned, loading, clearing, reading, reported,
  Event, go, picks, onward, load_total, load_inflight, caller_step,
}
use service_proxy.Balancer.Races.Adds.{
  inside, counted, taken_off, total_at-snoc, Adds, Adds-equal, Adds-total, Adds-inflight, sub_mod,
}
use service_proxy.Shared.{
  as_i32, nonneg_i32, ℕ, ◌+◌, ◌^◌, ◌≤◌, ◌<◌, ◌≡◌, refl, sym, ap, inl, inr, ltb, Bool, true, false,
  some, List, [], ◌∷◌, ◌++◌, if◌then◌else◌, length, get_elem?, set, total, get_elem?-lt,
  wrapping_add, wrapping_sub, arith, Option-cases, Bool-cases,
}

-- Whether a report is to take off what no count can hold, or a token is no index.
abbrev pub oversized : Caller → ℕ
oversized (clearing total stats) = if ltb total (2 ^ 64) then 0 else 1
oversized (holding idx) = if ltb idx (2 ^ 31) then 0 else 1
oversized _ = 0

taken_off-done :
    (reset : Bool) (i : ℕ) (stats : List UpstreamStat)
    → taken_off i (loading reset stats) ≡ taken_off i (reported reset stats)
taken_off-done true i stats = refl
taken_off-done false i stats = refl

taken_off-next :
    (reset : Bool) (i : ℕ) (stats : List UpstreamStat) (s : UpstreamStat)
    → taken_off i (reading reset s.total stats) ≡ taken_off i (loading reset (stats ++ s ∷ []))
taken_off-next true i stats s = sym (total_at-snoc i stats s)
taken_off-next false i stats s = refl

module _ (n : ℕ) (ins cnt off : ℕ → ℕ) where
  -- The counters while the others have done `ins`, `cnt` and `off`, and one more stands at `t`.
  pub record Fits (c : Counters) (t : Caller) : Type 0 where
    pub adds :
        Adds n c (λ i. ins i + inside i t) (λ i. cnt i + counted i t) (λ i. off i + taken_off i t)
    pub sized : oversized t ≡ 0

  module _ (few : n ≤ 2 ^ 31) (c c' : Counters) (t' : Caller) where
    -- An access that changes no count.
    only_reads :
        (t : Caller)
        → c ≡ c'
        → ((i : ℕ) → inside i t ≡ inside i t')
        → ((i : ℕ) → counted i t ≡ counted i t')
        → ((i : ℕ) → taken_off i t ≡ taken_off i t')
        → oversized t' ≡ 0
        → Fits c t
        → Fits c' t'
    only_reads t same p q r small v = record {
      adds = rw (← same) (
          Adds-equal (λ i. ap (λ k. ins i + k) (p i)) (λ i. ap (λ k. cnt i + k) (q i))
            (λ i. ap (λ k. off i + k) (r i)) v.adds);
      sized = small;
    }

    counts :
        (idx : ℕ)
        → onward (entering idx) (add_total idx 1 c) ≡ some (c', t')
        → Fits c (counting idx)
        → Fits c' t'
    unfolding add_total
    counts idx h v = elim (Option-cases (get_elem? c.total idx)) [
      | inl out ↦ absurd (ground (arith, out, h))
      | inr (x, found) ↦
          let w = wrapping_add x 1 in
          let to : record c { total = set c.total idx w } ≡ c' = ground (arith, found, h) in
          let who : entering idx ≡ t' = ground (arith, found, h) in
          rw (← who, ← to)
            (record {
              adds =
                  Adds-equal (λ i. refl) (λ i. omega arith) (λ i. ground arith)
                    (Adds-total idx v.adds w 1 0 found (omega arith) (λ a b e. omega (arith, e)));
              sized = refl;
            })
    ]

    clears :
        (x : ℕ) (stats : List UpstreamStat)
        → onward (reading true x stats) (sub_total (length stats) x c) ≡ some (c', t')
        → Fits c (clearing x stats)
        → Fits c' t'
    unfolding sub_total
    clears x stats h v = elim (Option-cases (get_elem? c.total (length stats))) [
      | inl out ↦ absurd (ground (arith, out, h))
      | inr (y, found) ↦
          let w = wrapping_sub y x in
          let to : record c { total = set c.total (length stats) w } ≡ c' =
            ground (arith, found, h) in
          let who : reading true x stats ≡ t' = ground (arith, found, h) in
          let small : x < 2 ^ 64 = ground (arith, v.sized) in
          rw (← who, ← to)
            (record {
              adds =
                  Adds-equal (λ i. refl) (λ i. ground arith) (λ i. omega arith)
                    (Adds-total (length stats) v.adds w 0 x found (omega arith)
                      (λ a b e. omega (arith, sub_mod y x a b small e)));
              sized = refl;
            })
    ]

    enters :
        (idx : ℕ)
        → onward (holding idx) (add_inflight idx 1 c) ≡ some (c', t')
        → Fits c (entering idx)
        → Fits c' t'
    unfolding add_inflight
    enters idx h v = elim (Option-cases (get_elem? c.inflight idx)) [
      | inl out ↦ absurd (ground (arith, out, h))
      | inr (x, found) ↦
          let lt : idx < n =
            omega (arith, get_elem?-lt c.inflight idx found, v.adds.inflight_length) in
          let w = wrapping_add x 1 in
          let to : record c { inflight = set c.inflight idx w } ≡ c' = ground (arith, found, h) in
          let who : holding idx ≡ t' = ground (arith, found, h) in
          rw (← who, ← to)
            (record {
              adds =
                  Adds-inflight idx v.adds w found (ground (arith, found, v.adds.inflights idx lt))
                    (λ i other. ground (arith, other));
              sized = ground (arith, lt, few);
            })
    ]

    releases :
        (idx : ℕ)
        → (let token = as_i32 idx in
            if nonneg_i32 token
            then onward (returned idx) (sub_inflight token 1 c)
            else some (c, returned idx))
          ≡ some (c', t')
        → Fits c (holding idx)
        → Fits c' t'
    unfolding sub_inflight
    releases idx h v =
        let small : idx < 2 ^ 31 = ground (arith, v.sized) in
        let token : as_i32 idx ≡ idx = omega arith in
        elim (Option-cases (get_elem? c.inflight idx)) [
          | inl out ↦ absurd (ground (arith, out, h, small, token))
          | inr (x, found) ↦
              let lt : idx < n =
                omega (arith, get_elem?-lt c.inflight idx found, v.adds.inflight_length) in
              let w = wrapping_sub x 1 in
              let to : record c { inflight = set c.inflight idx w } ≡ c' =
                ground (arith, found, h, small, token) in
              let who : returned idx ≡ t' = ground (arith, found, h, small, token) in
              rw (← who, ← to)
                (record {
                  adds =
                      Adds-inflight idx v.adds w found
                        (ground (arith, found, v.adds.inflights idx lt))
                        (λ i other. ground (arith, other));
                  sized = refl;
                })
        ]

    loads :
        (reset : Bool) (stats : List UpstreamStat)
        → load_total c reset stats ≡ some (c', t')
        → Fits c (loading reset stats)
        → Fits c' t'
    loads reset stats h v = elim (Bool-cases (ltb (length stats) (length c.addrs))) [
      | inl more ↦
          let lt : length stats < n = ground (arith, more, v.adds.addrs_length) in
          let (x, found, small, sum) = v.adds.totals (length stats) lt in
          elim (Bool-cases reset) [
            | inl clear ↦
                let same : c ≡ c' = ground (arith, more, found, clear, h) in
                let who : clearing x stats ≡ t' = ground (arith, more, found, clear, h) in
                only_reads (loading reset stats) same (λ i. rw (← who) refl) (λ i. rw (← who) refl)
                  (λ i. rw (← who, clear) refl) (rw (← who) ground (arith, small)) v
            | inr keep ↦
                let same : c ≡ c' = ground (arith, more, found, keep, h) in
                let who : reading reset x stats ≡ t' = ground (arith, more, found, keep, h) in
                only_reads (loading reset stats) same (λ i. rw (← who) refl) (λ i. rw (← who) refl)
                  (λ i. rw (← who, keep) refl) (rw (← who) refl) v
          ]
      | inr done ↦
          let same : c ≡ c' = ground (arith, done, h) in
          let who : reported reset stats ≡ t' = ground (arith, done, h) in
          only_reads (loading reset stats) same (λ i. rw (← who) refl) (λ i. rw (← who) refl)
            (λ i. rw (← who) (taken_off-done reset i stats)) (rw (← who) refl) v
    ]

    steps_report :
        (reset : Bool) (x : ℕ) (stats : List UpstreamStat)
        → load_inflight c reset x stats ≡ some (c', t')
        → Fits c (reading reset x stats)
        → Fits c' t'
    steps_report reset x stats h v = elim (Option-cases (get_elem? c.addrs (length stats))) [
      | inl out ↦ absurd (ground (arith, out, h))
      | inr (addr, named) ↦ elim (Option-cases (get_elem? c.inflight (length stats))) [
        | inl out ↦ absurd (ground (arith, named, out, h))
        | inr (k, found) ↦
            let stat : UpstreamStat = record { addr = addr; total = x; inflight = k } in
            let same : c ≡ c' = ground (arith, named, found, h) in
            let who : loading reset (stats ++ stat ∷ []) ≡ t' = ground (arith, named, found, h) in
            only_reads (reading reset x stats) same (λ i. rw (← who) refl) (λ i. rw (← who) refl)
              (λ i. rw (← who) (taken_off-next reset i stats stat)) (rw (← who) refl) v
      ]
    ]

    pub step-Fits :
        (t : Caller) (e : Event) → caller_step c t e ≡ some (c', t') → Fits c t → Fits c' t'
    unfolding caller_step
    step-Fits choosing (picks idx) h v = elim (Bool-cases (ltb idx (length c.addrs))) [
      | inl lt ↦
          let same : c ≡ c' = ground (arith, lt, h) in
          let who : counting idx ≡ t' = ground (arith, lt, h) in
          only_reads choosing same (λ i. rw (← who) refl) (λ i. rw (← who) refl)
            (λ i. rw (← who) refl) (rw (← who) refl) v
      | inr out ↦ absurd (ground (arith, out, h))
    ]
    step-Fits (counting idx) go h v = counts idx h v
    step-Fits (entering idx) go h v = enters idx h v
    step-Fits (holding idx) go h v = releases idx h v
    step-Fits (loading reset stats) go h v = loads reset stats h v
    step-Fits (clearing x stats) go h v = clears x stats h v
    step-Fits (reading reset x stats) go h v = steps_report reset x stats h v
    step-Fits t e h v = absurd (ground (arith, h))
