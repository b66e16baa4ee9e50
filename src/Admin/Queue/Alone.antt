-- ===== src/Admin/Queue/Alone.antt =====
-- A request for a profile that goes on as it would alone: pprof_server.rs.
use service_proxy.Admin.{Format}
use service_proxy.Admin.Profile.{Profiler, blocklist, collect, profile_blocking}
use service_proxy.Admin.Queue.Lock.{holds, profiles, left, IsAlone}
use service_proxy.Admin.Queue.{
  Event, go, panics, LockState, Caller, waiting, spawned, profiling, finished, answered,
  spawned_alone, profiling_alone, gone, build, after_sleep, start_step, collect_step,
}
use service_proxy.Shared.Result.{Result, ok, err, Result-cases}
use service_proxy.Shared.Text.{Text, codes}
use service_proxy.Shared.{
  ℕ, ◌≡◌, ◌≤◌, refl, inl, inr, true, false, Option, none, some, List, ◌++◌, Bool-cases, arith,
}

module _ (p : Profiler) (busy : Text) where
  -- What a request asks for.
  abbrev pub asks : Caller p busy → Option (ℕ × Format)
  asks (waiting n f) = some (n, f)
  asks (spawned n f) = some (n, f)
  asks (profiling n f guard) = some (n, f)
  asks (finished n f r) = some (n, f)
  asks (answered n f r) = some (n, f)
  asks _ = none

  -- A request for `job` that goes on as it would alone.
  pub record Alone (job : Option (ℕ × Format)) (join : Option Text) (t : Caller p busy)
      : Type 0 where
    pub asked : asks t ≡ job
    pub right : IsAlone join t

  -- The message of a panic, after an event.
  abbrev pub joined : Event → Option Text → Option Text
  joined (panics message) join = some message
  joined _ join = join

  -- A client that has left does not come back.
  start-left :
      (s : LockState) (r : Result Text p.Guard) (to : p.Guard → Caller p busy)
      (failed : Result Text (List ℕ) → Caller p busy)
      → ((guard : p.Guard) → left (to guard) ≡ 1)
      → ((x : Result Text (List ℕ)) → left (failed x) ≡ 1)
      → left (start_step p busy s r to failed).1 ≡ 1
  start-left s (ok guard) to failed a b = a guard
  start-left s (err e) to failed a b = b (err (codes "start profiler: " ++ e))

  pub step-left :
      (s s' : LockState) (t t' : Caller p busy) (e : Event)
      → collect_step p busy s t e ≡ some (s', t')
      → left t ≤ left t'
  unfolding collect_step
  step-left s s' (spawned_alone n f) t' go h =
      let after = start_step p busy s (build p busy s) (profiling_alone n f) (λ r. gone) in
      let same : after.1 ≡ t' = cc in
      let e =
        start-left s (build p busy s) (profiling_alone n f) (λ r. gone) (λ g. refl) (λ r. refl) in
      rw (← same) omega (arith, e)
  step-left s s' (profiling_alone n f guard) t' go h = ground (arith, h)
  step-left s s' (profiling_alone n f guard) t' (panics x) h = ground (arith, h)
  step-left s s' t t' e h = ground (arith, h)

  module _ (job : Option (ℕ × Format)) (join : Option Text) (s s' : LockState)
      (t' : Caller p busy) where
    becomes :
        (join' : Option Text) (u : LockState) (x : Caller p busy)
        → ◌≡◌ {A = Option (LockState × Caller p busy)} (some (u, x)) (some (s', t'))
        → asks x ≡ job
        → IsAlone join' x
        → Alone job join' t'
    becomes join' u x h a r = let who : x ≡ t' = cc in rw (← who) (record { asked = a; right = r })

    begins :
        (n : ℕ) (f : Format)
        → s.running ≡ false
        → some (n, f) ≡ job
        → join ≡ none
        → some (start_step p busy s (build p busy s) (profiling n f) (finished n f)) ≡ some (s', t')
        → Alone job join t'
    unfolding collect profile_blocking
    begins n f idle a calm h = elim (Result-cases (p.build 100 blocklist)) [
      | inl (guard, built) ↦
          becomes join (record s { running = true }) (profiling n f guard)
            (ground (arith, idle, built, h)) a (calm, built)
      | inr (e, refused) ↦
          becomes join s (finished n f (err (codes "start profiler: " ++ e)))
            (ground (arith, idle, refused, h)) a (rw calm ground (arith, refused))
    ]

    profiled :
        (n : ℕ) (f : Format) (guard : p.Guard)
        → p.build 100 blocklist ≡ ok guard
        → after_sleep p busy n f guard ≡ collect p none n f
    unfolding collect profile_blocking after_sleep
    profiled n f guard built = rw built refl

    -- A step with a client that stays.
    pub step-Alone :
        (t : Caller p busy) (e : Event)
        → collect_step p busy s t e ≡ some (s', t')
        → left t' ≡ 0
        → left t ≡ 0
        → (holds t ≡ 1 → profiles t ≡ 0 → s.running ≡ false)
        → Alone job join t
        → Alone job (joined e join) t'
    unfolding collect_step collect
    step-Alone (waiting n f) go h stays was idle v = elim (Bool-cases s.locked) [
      | inl taken ↦ absurd (ground (arith, taken, h))
      | inr free ↦
          becomes join (record s { locked = true }) (spawned n f) (ground (arith, free, h)) v.asked
            v.right
    ]
    step-Alone (spawned n f) go h stays was idle v = begins n f (idle refl refl) v.asked v.right h
    step-Alone (profiling n f guard) go h stays was idle v =
        becomes join (record s { running = false }) (finished n f (after_sleep p busy n f guard)) h
          v.asked (rw v.right.0 (profiled n f guard v.right.1))
    step-Alone (profiling n f guard) (panics e) h stays was idle v =
        becomes (some e) (record s { running = false }) (finished n f (err (codes "join: " ++ e))) h
          v.asked refl
    step-Alone (finished n f r) go h stays was idle v =
        becomes join (record s { locked = false }) (answered n f r) h v.asked v.right
    step-Alone t e h stays was idle v = absurd (ground (arith, h, stays, was))
