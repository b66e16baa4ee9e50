-- ===== src/Admin/Queue/Answers.antt =====
-- What requests for profiles are answered while others wait: pprof_server.rs.
use service_proxy.Admin.{Format, protobuf}
use service_proxy.Admin.Profile.{Profiler, collect}
use service_proxy.Admin.Queue.Lock.{holds, profiles, left, profiles-le, one_if, Books, step-Books}
use service_proxy.Admin.Queue.Alone.{Alone, joined, step-Alone, step-left}
use service_proxy.Admin.Queue.{
  Caller, waiting, answered, System, requests, init, Step, moves, Reach, here, later,
}
use service_proxy.Shared.Result.{Result, ok}
use service_proxy.Shared.Text.{Text}
use service_proxy.Shared.{
  none, if◌then◌else◌, ℕ, zero, suc, ◌+◌, ◌≡◌, ◌≤◌, ◌==◌, refl, sym, subst, ◌∙◌, inl, inr, Bool,
  true, false, Option, some, List, [], ◌∷◌, get_elem?, set, get_elem?-set, get_elem?-lt, total,
  others_before, others_after, Bool-cases, ==_iff, arith,
}

module _ (p : Profiler) (busy : Text) where
  -- The requests `jobs`, wherever they stand.
  pub record Queue (jobs : List (ℕ × Format)) (join : ℕ → Option Text) (s : System p busy)
      : Type 0 where
    pub books : Books s.shared (total holds s.callers) (total profiles s.callers)
    alone :
        total left s.callers ≡ 0
        → (i : ℕ) (t : Caller p busy) → get_elem? s.callers i ≡ some t
        → Alone p busy (get_elem? jobs i) (join i) t

  pub one_if-le : (b : Bool) → one_if b ≤ 1
  one_if-le true = omega arith
  one_if-le false = omega arith

  not_running : (b : Bool) → 0 ≡ one_if b → b ≡ false
  not_running true h = absurd (omega arith)
  not_running false h = refl

  profiles-le_total :
      (ts : List (Caller p busy)) → total profiles ts ≤ total holds ts + total left ts
  profiles-le_total [] = omega arith
  profiles-le_total (t ∷ ts) = omega (arith, profiles-le t, profiles-le_total ts)

  -- With what message the task of each request has panicked, if it has.
  abbrev pub stepped : {s u : System p busy} → (ℕ → Option Text) → Step p busy s u → ℕ → Option Text
  stepped join (moves k e at step) i = if k == i then joined p busy e (join i) else join i

  abbrev pub join_of : {s u : System p busy} → Reach p busy s u → ℕ → Option Text
  join_of here = λ i. none
  join_of (later reach step) = stepped (join_of reach) step

  Step-Queue :
      {jobs : List (ℕ × Format)} {join : ℕ → Option Text} {s u : System p busy}
      (step : Step p busy s u)
      → Queue jobs join s
      → Queue jobs (stepped join step) u
  Step-Queue {jobs} {join} {s} (moves k e {t} {t'} {c} at step) v = record {
    books = record {
      lock = sym (others_after holds {z = z} refl s.callers k t at t') ∙ after.lock;
      guard = sym (others_after profiles {z = z} refl s.callers k t at t') ∙ after.guard;
    };
    alone = λ none_left i x found. elim (Bool-cases (k == i)) [
      | inl same ↦
          let k_is = (==_iff k i).0 same in
          let read = get_elem?-set s.callers k i t' (get_elem?-lt s.callers k at) in
          let now : t' ≡ x = ground (arith, read, same, found) in
          rw same (
            subst (λ q. Alone p busy (get_elem? jobs i) (joined p busy e (join i)) q) now
              (subst (λ j. Alone p busy (get_elem? jobs j) (joined p busy e (join j)) t') k_is
                (here_alone none_left)))
      | inr other ↦
          let read = get_elem?-set s.callers k i t' (get_elem?-lt s.callers k at) in
          rw other (v.alone (was_left none_left) i x (ground (arith, read, other, found)))
    ];
  }
    where
      z : Caller p busy
      z = answered 0 protobuf (ok [])

      others : (Caller p busy → ℕ) → ℕ
      others w = total w (set s.callers k z)

      before : Books s.shared (others holds + holds t) (others profiles + profiles t)
      before = record {
        lock = others_before holds {z = z} refl s.callers k t at ∙ v.books.lock;
        guard = others_before profiles {z = z} refl s.callers k t at ∙ v.books.guard;
      }

      after : Books c (others holds + holds t') (others profiles + profiles t')
      after = step-Books p busy (others holds) (others profiles) s.shared c t t' e step before

      was_left : total left (set s.callers k t') ≡ 0 → total left s.callers ≡ 0
      was_left h = omega (
        arith,
        h,
        others_before left {z = z} refl s.callers k t at,
        others_after left {z = z} refl s.callers k t at t',
        step-left p busy s.shared c t t' e step,
      )

      here_alone :
          total left (set s.callers k t') ≡ 0
          → Alone p busy (get_elem? jobs k) (joined p busy e (join k)) t'
      here_alone h =
          step-Alone p busy (get_elem? jobs k) (join k) s.shared c t' t e step
            (omega (arith, h, others_after left {z = z} refl s.callers k t at t'))
            (omega (arith, was_left h, others_before left {z = z} refl s.callers k t at))
            (λ held quiet. not_running s.shared.running (
              omega (
                arith,
                held,
                quiet,
                before.lock,
                before.guard,
                one_if-le s.shared.locked,
                was_left h,
                others_before left {z = z} refl s.callers k t at,
                profiles-le_total (set s.callers k z),
              )))
            (v.alone (was_left h) k t at)

  requests-total :
      (w : Caller p busy → ℕ)
      → ((n : ℕ) (f : Format) → w (waiting n f) ≡ 0)
      → (jobs : List (ℕ × Format)) → total w (requests p busy jobs) ≡ 0
  requests-total w h [] = refl
  requests-total w h ((n, f) ∷ jobs) = omega (arith, h n f, requests-total w h jobs)

  requests-Alone :
      (jobs : List (ℕ × Format)) (i : ℕ) {t : Caller p busy}
      → get_elem? (requests p busy jobs) i ≡ some t
      → Alone p busy (get_elem? jobs i) none t
  requests-Alone [] i h = absurd (cc)
  requests-Alone ((n, f) ∷ jobs) zero {t} h =
      let who : waiting n f ≡ t = cc in rw (← who) (record { asked = refl; right = refl })
  requests-Alone ((n, f) ∷ jobs) (suc i) h = requests-Alone jobs i h

  pub Reach-Queue :
      (jobs : List (ℕ × Format)) {s : System p busy} (reach : Reach p busy (init p busy jobs) s)
      → Queue jobs (join_of reach) s
  Reach-Queue jobs here = record {
    books = record {
      lock = requests-total holds (λ n f. refl) jobs;
      guard = requests-total profiles (λ n f. refl) jobs;
    };
    alone = λ none_left i t found. requests-Alone jobs i found;
  }
  Reach-Queue jobs (later reach step) = Step-Queue step (Reach-Queue jobs reach)

  -- Profiles queue: from a free lock and any list of requests, in every state that they reach while no
  -- client has gone away, however their steps interleave, a request that has been answered got what
  -- `collect` gives, where no other request is there, for its seconds, its format and the end of its
  -- own task in this run: the message of its panic, or none if it has not panicked.
  pub Reach-answered :
      (jobs : List (ℕ × Format)) {s : System p busy} (reach : Reach p busy (init p busy jobs) s)
      → total left s.callers ≡ 0
      → (i n : ℕ) (f : Format) (r : Result Text (List ℕ))
      → get_elem? s.callers i ≡ some (answered n f r)
      → (get_elem? jobs i ≡ some (n, f)) × (r ≡ collect p (join_of reach i) n f)
  Reach-answered jobs reach none_left i n f r found =
      let v = (Reach-Queue jobs reach).alone none_left i (answered n f r) found in
      (sym v.asked, v.right)
