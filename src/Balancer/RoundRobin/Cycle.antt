-- ===== src/Balancer/RoundRobin/Cycle.antt =====
-- The order in which `RoundRobin` and `CountingRoundRobin` of upstream/balancer.rs serve, and the
-- counts of the latter.
use service_proxy.Balancer.Counters.Laws.{
  IsAligned, picked, picked-IsAligned, pick_lem, new-IsAligned,
}
use service_proxy.Balancer.Counters
use service_proxy.Balancer.Counters.{Counters}
use service_proxy.Balancer.RoundRobin.{
  RoundRobin, new_round_robin, round_robin_next, index_of, CountingRoundRobin, counting_next,
  new_counting,
}
use service_proxy.Shared.{
  ℕ, zero, suc, ◌+◌, ◌-◌, ◌/◌, ◌*◌, ◌%◌, ◌^◌, ◌≤◌, ◌<◌, ◌≡◌, refl, some, List, arith, length,
  get_elem?, get_elem?-total, get_elem?-modify, get_elem?-replicate, modify, ap, ◌∙◌, Op,
  Bool-cases, ltb, subst, inl, inr, wrapping_add, as_i32, minus_one, ◌==◌, if◌then◌else◌,
}
use service_proxy.Shared.Text.{Text}
use native.Mathlib.Decide.{dec_lt}
use native.Mathlib.Nat.{
  mul-add-div, div-eq-sub-div, div-eq_of_lt, div-add-mod, mod-lt, add-zero, zero-add,
}

-- `RoundRobin::next` in a state with `n` upstreams: the address at the counter modulo `n`.
round_robin_next_lem :
    (s : RoundRobin)
    → 0 < length s.addrs
    → (addr : Text) × (get_elem? s.addrs (s.counter % length s.addrs) ≡ some addr)
      × (round_robin_next s
          ≡ (record s { counter = wrapping_add s.counter 1 }, some (addr, minus_one)))
unfolding round_robin_next
round_robin_next_lem s h =
    let (addr, a) = get_elem?-total s.addrs (s.counter % length s.addrs) (ground arith) in
    (addr, a, ground arith)

-- `k` calls one after the other, with what the last one returned.
pub after_calls {ℓ} : {S : Type ℓ} → Op S (Text × ℕ) → ℕ → S → S
after_calls next zero s = s
after_calls next (suc k) s = after_calls next k (next s).0

-- How many of the numbers below `x` leave the remainder `i` modulo `n`.
abbrev visits : ℕ → ℕ → ℕ → ℕ
visits n i x = (x + n - 1 - i) / n

visits_at : (n i q r : ℕ) → i < n → r < n → visits n i (n * q + r) ≡ q + (if ltb i r then 1 else 0)
visits_at n i q r h k =
    let pos : 0 < n = omega arith in
    let split : n * q + r + n - 1 - i ≡ n * q + (r + n - 1 - i) = omega arith in
    let quotient = mul-add-div pos q (r + n - 1 - i) in
    rw (split, quotient)
      (elim (Bool-cases (ltb i r)) [
        | inl more ↦
            rw
              (
                more,
                div-eq-sub-div {m = n} {n = r + n - 1 - i} pos (ground arith),
                div-eq_of_lt {n = r + n - 1 - i - n} {m = n} (ground arith),
              )
              refl
        | inr less ↦ rw (less, div-eq_of_lt {n = r + n - 1 - i} {m = n} (ground arith)) refl
      ])

visits_of :
    (n i q r x : ℕ) → i < n → r < n → n * q + r ≡ x → visits n i x ≡ q + (if ltb i r then 1 else 0)
visits_of n i q r x h k e = rw (← e) (visits_at n i q r h k)

visits-suc : (n i x : ℕ) → i < n → visits n i (suc x) ≡ visits n i x + (if x % n == i then 1 else 0)
visits-suc n i x h =
    let old = visits_of n i (x / n) (x % n) x h (omega arith) (div-add-mod x n) in
    elim (dec_lt (suc (x % n)) n) [
      | yes inside ↦
          let new =
            visits_of n i (x / n) (suc (x % n)) (suc x) h inside (omega (arith, div-add-mod x n)) in
          ground arith
      | no last ↦
          let new =
            visits_of n i (suc (x / n)) 0 (suc x) h (omega arith)
              (grind (arith, div-add-mod x n)) in
          ground arith
    ]

-- The state after the counter has gone from 0 to `x`: nothing released, every total and in-flight
-- count equal to the number of turns of its index.
record Even (n x : ℕ) (s : CountingRoundRobin) : Type 0 where
  aligned : IsAligned s.counters n
  position : s.counter ≡ x % 2 ^ 64
  totals : (i : ℕ) → i < n → get_elem? s.counters.total i ≡ some (visits n i x)
  inflights : (i : ℕ) → i < n → get_elem? s.counters.inflight i ≡ some (visits n i x)

visits-le : (n i x : ℕ) → i < n → visits n i x ≤ x
visits-le n i x h =
    let e = visits_of n i (x / n) (x % n) x h (omega arith) (div-add-mod x n) in
    grind (arith, div-add-mod x n)

bump-visits :
    (xs : List ℕ) (n i x : ℕ)
    → i < n
    → suc x < 2 ^ 64
    → get_elem? xs i ≡ some (visits n i x)
    → get_elem? (modify xs (x % n) (λ v. wrapping_add v 1)) i ≡ some (visits n i (suc x))
bump-visits xs n i x h lt e =
    get_elem?-modify xs (x % n) i (λ v. wrapping_add v 1) e
    ∙ ap some (bumped (visits-suc n i x h) (visits-le n i x h))
  where
    bumped :
        visits n i (suc x) ≡ visits n i x + (if x % n == i then 1 else 0)
        → visits n i x ≤ x
        → (if x % n == i then wrapping_add (visits n i x) 1 else visits n i x) ≡ visits n i (suc x)
    bumped step le = elim (Bool-cases (x % n == i)) [
      | inl hit ↦ rw hit (omega (arith, rw hit at step))
      | inr miss ↦ rw miss (omega (arith, rw miss at step))
    ]

counting_next-Even :
    {n x : ℕ} {s : CountingRoundRobin}
    → 0 < n
    → suc x < 2 ^ 64
    → Even n x s
    → (addr : Text) × (get_elem? s.counters.addrs (x % n) ≡ some addr)
      × ((counting_next s).1 ≡ some (addr, as_i32 (x % n)))
      × Even n (suc x) (counting_next s).0
unfolding counting_next index_of
counting_next-Even {n} {x} {s} pos lt ev =
    let (addr, a, pick) = pick_lem ev.aligned (mod-lt x pos) in
    let step : counting_next s ≡ (
      record { counters = picked (x % n) s.counters; counter = suc x % 2 ^ 64 },
      some (addr, as_i32 (x % n)),
    ) =
      ground (arith, ev.position) in
    (
      addr,
      a,
      rw step,
      rw step (record {
        aligned = picked-IsAligned (x % n) ev.aligned;
        position = refl;
        totals = λ i h. bump-visits s.counters.total n i x h lt (ev.totals i h);
        inflights = λ i h. bump-visits s.counters.inflight n i x h lt (ev.inflights i h);
      }),
    )

start-Even : (addrs : List Text) → 0 < length addrs → Even (length addrs) 0 (new_counting addrs)
unfolding new_counting Counters.new
start-Even addrs pos = record {
  aligned = new-IsAligned addrs;
  position = refl;
  totals = λ i h. get_elem?-replicate (length addrs) 0 i h ∙ ap some (zero_visits i h);
  inflights = λ i h. get_elem?-replicate (length addrs) 0 i h ∙ ap some (zero_visits i h);
}
  where
    zero_visits : (i : ℕ) → i < length addrs → 0 ≡ visits (length addrs) i 0
    zero_visits i h = omega (arith, visits-le (length addrs) i 0 h)

after_calls-Even :
    {n : ℕ} (k x : ℕ) {s : CountingRoundRobin}
    → 0 < n
    → x + k < 2 ^ 64
    → Even n x s
    → Even n (x + k) (after_calls counting_next k s)
unfolding after_calls
after_calls-Even {n} zero x {s} pos h ev = rw add-zero ev
after_calls-Even {n} (suc k) x {s} pos h ev =
    subst (λ y. Even n y (after_calls counting_next k (counting_next s).0)) (omega arith)
      (after_calls-Even k (suc x) pos (omega arith) (counting_next-Even pos (omega arith) ev).3)

-- A new `CountingRoundRobin` serves evenly: after `k` calls of `next`, none of them released, the
-- total and the in-flight count of upstream `i` of `n` are both (k + n - 1 - i) / n, so that two
-- upstreams differ by one at most. It holds for k below 2 ^ 64, where the counts wrap around.
pub counting_next-even :
    (addrs : List Text) (k i : ℕ)
    → k < 2 ^ 64
    → i < length addrs
    → let c = (after_calls counting_next k (new_counting addrs)).counters in
      (get_elem? c.total i ≡ some ((k + length addrs - 1 - i) / length addrs))
      × (get_elem? c.inflight i ≡ some ((k + length addrs - 1 - i) / length addrs))
counting_next-even addrs k i h lt =
    let ev = after_calls-Even k 0 (omega arith) (omega arith) (start-Even addrs (omega arith)) in
    let turns : visits (length addrs) i (0 + k) ≡ (k + length addrs - 1 - i) / length addrs =
      rw zero-add in
    (ev.totals i lt ∙ ap some turns, ev.inflights i lt ∙ ap some turns)

after_calls-round_robin :
    (k : ℕ) (s : RoundRobin)
    → s.counter < 2 ^ 64
    → 0 < length s.addrs
    → after_calls round_robin_next k s ≡ record s { counter = (s.counter + k) % 2 ^ 64 }
unfolding after_calls
after_calls-round_robin zero s lt pos = ground (arith)
after_calls-round_robin (suc k) s lt pos =
    let (addr, a, step) = round_robin_next_lem s pos in
    rw step (
      after_calls-round_robin k (record s { counter = wrapping_add s.counter 1 }) (omega arith) pos
      ∙ ap (λ c. record s { counter = c }) (omega arith))

-- `RoundRobin` serves its upstreams in turn: call number `k`, counted from 0, of a new selector
-- returns the address at index `k` modulo 2 ^ 64 modulo the number of upstreams, and the token -1.
pub round_robin_next-cycle :
    (addrs : List Text) (k : ℕ)
    → 0 < length addrs
    → (addr : Text) × (get_elem? addrs (k % 2 ^ 64 % length addrs) ≡ some addr)
      × ((round_robin_next (after_calls round_robin_next k (new_round_robin addrs))).1
          ≡ some (addr, minus_one))
unfolding new_round_robin
round_robin_next-cycle addrs k pos =
    let turn : RoundRobin = record { addrs = addrs; counter = k % 2 ^ 64 } in
    let (addr, a, step) = round_robin_next_lem turn pos in
    let start : RoundRobin = new_round_robin addrs in
    let calls : after_calls round_robin_next k start ≡ turn =
      after_calls-round_robin k start (omega arith) pos
      ∙ ap (λ c. record start { counter = c }) (omega arith) in
    (addr, a, rw calls (ap (λ p. p.1) step))
