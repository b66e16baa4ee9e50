-- ===== src/Admin/Queue/Ends.antt =====
-- Requests for profiles come to an end: pprof_server.rs.
use service_proxy.Admin.{Format}
use service_proxy.Admin.Profile.{Profiler}
use service_proxy.Admin.Queue.Answers.{Queue, Reach-Queue, join_of}
use service_proxy.Admin.Queue.Lock.{holds}
use service_proxy.Admin.Queue.{
  Event, go, LockState, Caller, waiting, spawned, profiling, finished, answered, spawned_alone,
  profiling_alone, gone, build, start_step, after_sleep, collect_step, System, requests, init, Step,
  moves, Reach, here, later,
}
use service_proxy.Shared.Result.{Result, ok, err}
use service_proxy.Shared.Text.{Text, codes}
use service_proxy.Shared.{
  Option, ℕ, suc, ◌+◌, ◌*◌, ◌≡◌, ◌≤◌, ◌<◌, refl, inl, inr, ◌⊎◌, true, false, some, List, [], ◌∷◌,
  ◌++◌, get_elem?, length, total, total-set, positive-total, Bool-cases, Nat-cases, arith,
}

module _ (p : Profiler) (busy : Text) where
  -- How many steps a request has left at most.
  abbrev pub work : Caller p busy → ℕ
  work (waiting n f) = 4
  work (spawned n f) = 3
  work (profiling n f guard) = 2
  work (finished n f r) = 1
  work (answered n f r) = 0
  work (spawned_alone n f) = 2
  work (profiling_alone n f guard) = 1
  work gone = 0

  start-work :
      (s : LockState) (r : Result Text p.Guard) (to : p.Guard → Caller p busy)
      (failed : Result Text (List ℕ) → Caller p busy) (w : ℕ)
      → ((guard : p.Guard) → work (to guard) < w)
      → ((x : Result Text (List ℕ)) → work (failed x) < w)
      → work (start_step p busy s r to failed).1 < w
  start-work s (ok guard) to failed w a b = a guard
  start-work s (err e) to failed w a b = b (err (codes "start profiler: " ++ e))

  step-work :
      (s s' : LockState) (t t' : Caller p busy) (e : Event)
      → collect_step p busy s t e ≡ some (s', t')
      → work t' < work t
  unfolding collect_step
  step-work s s' (spawned n f) t' go h =
      let after = start_step p busy s (build p busy s) (profiling n f) (finished n f) in
      let same : after.1 ≡ t' = cc in
      rw (← same) (
        start-work s (build p busy s) (profiling n f) (finished n f) 3 (λ g. omega arith)
          (λ r. omega arith))
  step-work s s' (spawned_alone n f) t' go h =
      let after = start_step p busy s (build p busy s) (profiling_alone n f) (λ r. gone) in
      let same : after.1 ≡ t' = cc in
      rw (← same) (
        start-work s (build p busy s) (profiling_alone n f) (λ r. gone) 2 (λ g. omega arith)
          (λ r. omega arith))
  step-work s s' t t' e h = ground (arith, h)

  -- How many steps a run has made.
  abbrev pub steps : {s u : System p busy} → Reach p busy s u → ℕ
  steps here = 0
  steps (later reach step) = suc (steps reach)

  requests-work : (jobs : List (ℕ × Format)) → total work (requests p busy jobs) ≡ 4 * length jobs
  requests-work [] = refl
  requests-work ((n, f) ∷ jobs) = omega (arith, requests-work jobs)

  Step-work :
      {s u : System p busy} → Step p busy s u → suc (total work u.callers) ≤ total work s.callers
  Step-work {s} (moves k e {t} {t'} {c} at step) =
      omega (arith, total-set work s.callers k t t' at, step-work s.shared c t t' e step)

  Reach-work :
      (jobs : List (ℕ × Format)) {s : System p busy} (reach : Reach p busy (init p busy jobs) s)
      → steps reach + total work s.callers ≤ 4 * length jobs
  Reach-work jobs here = omega (arith, requests-work jobs)
  Reach-work jobs (later reach step) = omega (arith, Reach-work jobs reach, Step-work step)

  -- A caller that can go on.
  abbrev Goes : LockState → Caller p busy → Type 0
  Goes s t = (after : LockState × Caller p busy) × (collect_step p busy s t go ≡ some after)

  -- Whoever has something left to do can go on, or waits for the lock.
  goes :
      (s : LockState) (t : Caller p busy)
      → 0 < work t
      → Goes s t ⊎ ((s.locked ≡ true) × (holds t ≡ 0))
  unfolding collect_step
  goes s (waiting n f) h = elim (Bool-cases s.locked) [
    | inl taken ↦ inr (taken, refl)
    | inr free ↦ inl ((record s { locked = true }, spawned n f), ground (arith, free))
  ]
  goes s (spawned n f) h =
      inl (start_step p busy s (build p busy s) (profiling n f) (finished n f), refl)
  goes s (profiling n f guard) h =
      inl ((record s { running = false }, finished n f (after_sleep p busy n f guard)), refl)
  goes s (finished n f r) h = inl ((record s { locked = false }, answered n f r), refl)
  goes s (answered n f r) h = absurd (omega arith)
  goes s (spawned_alone n f) h =
      inl (start_step p busy s (build p busy s) (profiling_alone n f) (λ r. gone), refl)
  goes s (profiling_alone n f guard) h = inl ((record s { running = false }, gone), refl)
  goes s gone h = absurd (omega arith)

  holds-work : (t : Caller p busy) → 0 < holds t → 0 < work t
  holds-work (waiting n f) h = absurd (omega arith)
  holds-work (spawned n f) h = omega arith
  holds-work (profiling n f guard) h = omega arith
  holds-work (finished n f r) h = omega arith
  holds-work (answered n f r) h = absurd (omega arith)
  holds-work (spawned_alone n f) h = absurd (omega arith)
  holds-work (profiling_alone n f guard) h = absurd (omega arith)
  holds-work gone h = absurd (omega arith)

  -- The lock is held by someone who can go on.
  holder-Goes :
      (jobs : List (ℕ × Format)) {s : System p busy}
      → (join : ℕ → Option Text) → Queue p busy jobs join s
      → s.shared.locked ≡ true
      → (k : ℕ) × (t : Caller p busy) × (get_elem? s.callers k ≡ some t) × Goes s.shared t
  holder-Goes jobs {s} join q taken =
      let (k, t, at, pos) = positive-total holds s.callers (ground (arith, q.books.lock, taken)) in
      elim (goes s.shared t (holds-work t pos)) [
        | inl going ↦ (k, t, at, going)
        | inr (_, idle) ↦ absurd (omega (arith, idle, pos))
      ]

  -- Requests for profiles come to an end: a run on any list of them makes at most four steps for each,
  -- and in a state that it reaches either every request is answered or its client gone, or one of
  -- them can make a step that is not its client's leaving.
  pub Reach-ends :
      (jobs : List (ℕ × Format)) {s : System p busy} (reach : Reach p busy (init p busy jobs) s)
      → (steps reach + total work s.callers ≤ 4 * length jobs)
        × ((total work s.callers ≡ 0)
            ⊎ ((k : ℕ) × (t : Caller p busy) × (get_elem? s.callers k ≡ some t)
                × (after : LockState × Caller p busy) × (collect_step p busy s.shared t go
                    ≡ some after)))
  Reach-ends jobs {s} reach = (
    Reach-work jobs reach,
    elim (Nat-cases (total work s.callers)) [
      | inl done ↦ inl done
      | inr (n, more) ↦
          let (k, t, at, pos) = positive-total work s.callers (omega (arith, more)) in
          elim (goes s.shared t pos) [
            | inl (after, step) ↦ inr (k, t, at, after, step)
            | inr (taken, _) ↦
                let (k', t', at', going) =
                  holder-Goes jobs (join_of p busy reach) (Reach-Queue p busy jobs reach) taken in
                inr (k', t', at', going.0, going.1)
          ]
    ],
  )
