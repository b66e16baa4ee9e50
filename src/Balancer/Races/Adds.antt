-- ===== src/Balancer/Races/Adds.antt =====
-- What callers of a counting selector have added to its counts.
use service_proxy.Balancer.Counters.{Counters, UpstreamStat}
use service_proxy.Balancer.Races.{
  Caller, entering, holding, returned, loading, clearing, reading, reported,
}
use service_proxy.Shared.{
  ℕ, zero, suc, ◌+◌, ◌%◌, ◌^◌, ◌≤◌, ◌<◌, ◌≡◌, refl, sym, ap, subst, ◌∙◌, ◌==◌, inl, inr, true,
  false, some, List, [], ◌∷◌, ◌++◌, if◌then◌else◌, length, get_elem?, set, total, length-set,
  get_elem?-set, get_elem?-lt, wrapping_add, wrapping_sub, arith, Bool-cases, ==_iff,
}

-- What a caller has added to the counts of upstream `i`.
abbrev pub inside : ℕ → Caller → ℕ
inside i (holding idx) = if idx == i then 1 else 0
inside i _ = 0

abbrev pub counted : ℕ → Caller → ℕ
counted i (entering idx) = if idx == i then 1 else 0
counted i (holding idx) = if idx == i then 1 else 0
counted i (returned idx) = if idx == i then 1 else 0
counted i _ = 0

-- The totals of a report, from index `i` on.
abbrev pub total_at : ℕ → List UpstreamStat → ℕ
total_at i [] = 0
total_at zero (s ∷ stats) = s.total
total_at (suc i) (s ∷ stats) = total_at i stats

-- What a report has taken off the total of upstream `i`.
abbrev pub taken_off : ℕ → Caller → ℕ
taken_off i (loading true stats) = total_at i stats
taken_off i (clearing total stats) = total_at i stats
taken_off i (reading true total stats) = total_at i stats + (if length stats == i then total else 0)
taken_off i (reported true stats) = total_at i stats
taken_off i _ = 0

pub total_at-beyond : (i : ℕ) (stats : List UpstreamStat) → length stats ≤ i → total_at i stats ≡ 0
total_at-beyond i [] h = refl
total_at-beyond zero (s ∷ stats) h = absurd (omega arith)
total_at-beyond (suc i) (s ∷ stats) h = total_at-beyond i stats (omega arith)

pub total_at-snoc :
    (i : ℕ) (stats : List UpstreamStat) (s : UpstreamStat)
    → total_at i (stats ++ s ∷ []) ≡ total_at i stats + (if length stats == i then s.total else 0)
total_at-snoc zero [] s = ground arith
total_at-snoc (suc i) [] s = ground arith
total_at-snoc zero (x ∷ stats) s = ground arith
total_at-snoc (suc i) (x ∷ stats) s = ground (arith, total_at-snoc i stats s)

-- The counters of `n` upstreams after `ins` callers entered, with `cnt` picks and `off` taken off.
pub record Adds (n : ℕ) (c : Counters) (ins cnt off : ℕ → ℕ) : Type 0 where
  pub addrs_length : length c.addrs ≡ n
  pub inflight_length : length c.inflight ≡ n
  pub inflights : (i : ℕ) → i < n → get_elem? c.inflight i ≡ some (ins i % 2 ^ 64)
  pub totals :
      (i : ℕ)
      → i < n
      → (v : ℕ) × (get_elem? c.total i ≡ some v)
        × (v < 2 ^ 64)
        × ((v + off i) % 2 ^ 64 ≡ cnt i % 2 ^ 64)

pub Adds-equal :
    {n : ℕ} {c : Counters} {ins cnt off ins' cnt' off' : ℕ → ℕ}
    → ((i : ℕ) → ins i ≡ ins' i)
    → ((i : ℕ) → cnt i ≡ cnt' i)
    → ((i : ℕ) → off i ≡ off' i)
    → Adds n c ins cnt off
    → Adds n c ins' cnt' off'
Adds-equal p q r v = record {
  addrs_length = v.addrs_length;
  inflight_length = v.inflight_length;
  inflights = λ i lt. v.inflights i lt ∙ ap (λ k. some (k % 2 ^ 64)) (p i);
  totals = λ i lt.
      let (t, at, small, sum) = v.totals i lt in
      (t, at, small, ap (λ k. (t + k) % 2 ^ 64) (sym (r i)) ∙ sum ∙ ap (λ k. k % 2 ^ 64) (q i));
}

pub add_mod :
    (v off cnt : ℕ)
    → (v + off) % 2 ^ 64 ≡ cnt % 2 ^ 64
    → (wrapping_add v 1 + off) % 2 ^ 64 ≡ (cnt + 1) % 2 ^ 64
add_mod v off cnt h = omega arith

pub sub_mod :
    (v t off cnt : ℕ)
    → t < 2 ^ 64
    → (v + off) % 2 ^ 64 ≡ cnt % 2 ^ 64
    → (wrapping_sub v t + (off + t)) % 2 ^ 64 ≡ cnt % 2 ^ 64
sub_mod v t off cnt small h = omega arith

-- A read of a list after a write at `idx`.
module _ (xs : List ℕ) (idx : ℕ) {v : ℕ} (w : ℕ) (found : get_elem? xs idx ≡ some v) (i : ℕ) where
  written : idx == i ≡ true → get_elem? (set xs idx w) i ≡ some w
  written same = ground (arith, get_elem?-set xs idx i w (get_elem?-lt xs idx found), same)

  unwritten : idx == i ≡ false → get_elem? (set xs idx w) i ≡ get_elem? xs i
  unwritten other = ground (arith, get_elem?-set xs idx i w (get_elem?-lt xs idx found), other)

-- One write to a count, next to the others.
module _ {n : ℕ} {c : Counters} {ins cnt off : ℕ → ℕ} (idx : ℕ) {v : ℕ}
    (s : Adds n c ins cnt off) where
  pub Adds-total :
      (w picked taken : ℕ)
      → get_elem? c.total idx ≡ some v
      → w < 2 ^ 64
      → ((a b : ℕ)
          → (v + a) % 2 ^ 64 ≡ b % 2 ^ 64
          → (w + (a + taken)) % 2 ^ 64 ≡ (b + picked) % 2 ^ 64)
      → Adds n
          (record c { total = set c.total idx w })
          ins
          (λ i. cnt i + (if idx == i then picked else 0))
          (λ i. off i + (if idx == i then taken else 0))
  Adds-total w picked taken found small keeps = record {
    addrs_length = s.addrs_length;
    inflight_length = s.inflight_length;
    inflights = s.inflights;
    totals = λ i lt.
        let (t, at, bound, sum) = s.totals i lt in
        elim (Bool-cases (idx == i)) [
          | inl same ↦
              let now : get_elem? c.total i ≡ some v = rw (← (==_iff idx i).0 same) found in
              let e : t ≡ v = ground (arith, at, now) in
              let kept =
                keeps (off i) (cnt i) (subst (λ k. (k + off i) % 2 ^ 64 ≡ cnt i % 2 ^ 64) e sum) in
              (w, written c.total idx w found i same, small, rw same kept)
          | inr other ↦
              (t, unwritten c.total idx w found i other ∙ at, bound, rw other omega (arith, sum))
        ];
  }

  pub Adds-inflight :
      (w : ℕ) {ins' : ℕ → ℕ}
      → get_elem? c.inflight idx ≡ some v
      → w ≡ ins' idx % 2 ^ 64
      → ((i : ℕ) → idx == i ≡ false → ins i ≡ ins' i)
      → Adds n (record c { inflight = set c.inflight idx w }) ins' cnt off
  Adds-inflight w {ins'} found now elsewhere = record {
    addrs_length = s.addrs_length;
    inflight_length = length-set c.inflight idx w ∙ s.inflight_length;
    inflights = λ i lt. elim (Bool-cases (idx == i)) [
      | inl same ↦
          written c.inflight idx w found i same
          ∙ ap some (now ∙ ap (λ k. ins' k % 2 ^ 64) ((==_iff idx i).0 same))
      | inr other ↦
          unwritten c.inflight idx w found i other
          ∙ s.inflights i lt
          ∙ ap (λ k. some (k % 2 ^ 64)) (elsewhere i other)
    ];
    totals = s.totals;
  }
