-- ===== src/Admin/Queue/Lock.antt =====
-- Who holds `PROFILE_LOCK` of pprof_server.rs, and who profiles.
use service_proxy.Admin.Profile.{Profiler, blocklist, collect}
use service_proxy.Admin.Queue.{
  Event, go, panics, leaves, LockState, Caller, waiting, spawned, profiling, finished, answered,
  spawned_alone, profiling_alone, gone, build, after_sleep, start_step, collect_step,
}
use service_proxy.Shared.Result.{Result, ok, err, Result-cases}
use service_proxy.Shared.Text.{Text, codes}
use service_proxy.Shared.{
  none, ℕ, ◌+◌, ◌≡◌, ◌≤◌, refl, inl, inr, Bool, true, false, Option, some, List, ◌++◌,
  if◌then◌else◌, Bool-cases, arith,
}

module _ {p : Profiler} {busy : Text} where
  -- Whether a request holds the lock, has a guard of the profiler, has lost its client.
  abbrev pub holds : Caller p busy → ℕ
  holds (spawned n f) = 1
  holds (profiling n f guard) = 1
  holds (finished n f r) = 1
  holds _ = 0

  abbrev pub profiles : Caller p busy → ℕ
  profiles (profiling n f guard) = 1
  profiles (profiling_alone n f guard) = 1
  profiles _ = 0

  abbrev pub left : Caller p busy → ℕ
  left (spawned_alone n f) = 1
  left (profiling_alone n f guard) = 1
  left gone = 1
  left _ = 0

  pub profiles-le : (t : Caller p busy) → profiles t ≤ holds t + left t
  profiles-le (waiting n f) = omega arith
  profiles-le (spawned n f) = omega arith
  profiles-le (profiling n f guard) = omega arith
  profiles-le (finished n f r) = omega arith
  profiles-le (answered n f r) = omega arith
  profiles-le (spawned_alone n f) = omega arith
  profiles-le (profiling_alone n f guard) = omega arith
  profiles-le gone = omega arith

  -- What a request may stand at if no client has left: its profile runs or has run as it would alone.
  -- `join` is the message of its task's panic, if it has panicked.
  abbrev pub IsAlone : Option Text → Caller p busy → Type 0
  IsAlone join (waiting n f) = join ≡ none
  IsAlone join (spawned n f) = join ≡ none
  IsAlone join (profiling n f guard) = (join ≡ none) × (p.build 100 blocklist ≡ ok guard)
  IsAlone join (finished n f r) = r ≡ collect p join n f
  IsAlone join (answered n f r) = r ≡ collect p join n f
  IsAlone join _ = Unit {0}

abbrev pub one_if : Bool → ℕ
one_if b = if b then 1 else 0

-- The lock and the profiler, where the others hold, profile and have left so often.
pub record Books (s : LockState) (held running : ℕ) : Type 0 where
  pub lock : held ≡ one_if s.locked
  pub guard : running ≡ one_if s.running

module _ (p : Profiler) (busy : Text) (held running : ℕ) where
  land :
      (u s' : LockState) (x t' : Caller p busy)
      → ◌≡◌ {A = Option (LockState × Caller p busy)} (some (u, x)) (some (s', t'))
      → Books u (held + holds x) (running + profiles x)
      → Books s' (held + holds t') (running + profiles t')
  land u s' x t' h v = let same : u ≡ s' = cc in let who : x ≡ t' = cc in rw (← who, ← same) v

  starts :
      (s s' : LockState) (t' : Caller p busy) (to : p.Guard → Caller p busy)
      (failed : Result Text (List ℕ) → Caller p busy) (b : ℕ)
      → ((guard : p.Guard) → (holds (to guard) ≡ b) × (profiles (to guard) ≡ 1))
      → ((r : Result Text (List ℕ)) → (holds (failed r) ≡ b) × (profiles (failed r) ≡ 0))
      → some (start_step p busy s (build p busy s) to failed) ≡ some (s', t')
      → Books s (held + b) (running + 0)
      → Books s' (held + holds t') (running + profiles t')
  starts s s' t' to failed b good bad h v = elim (Bool-cases s.running) [
    | inl runs ↦
        land s s' (failed (err (codes "start profiler: " ++ busy))) t' (ground (arith, runs, h))
          (record {
            lock = omega (arith, v.lock, (bad (err (codes "start profiler: " ++ busy))).0);
            guard = omega (arith, v.guard, (bad (err (codes "start profiler: " ++ busy))).1);
          })
    | inr idle ↦ elim (Result-cases (p.build 100 blocklist)) [
      | inl (guard, built) ↦
          land (record s { running = true }) s' (to guard) t' (ground (arith, idle, built, h))
            (record {
              lock = omega (arith, v.lock, (good guard).0);
              guard = ground (arith, v.guard, idle, (good guard).1);
            })
      | inr (e, refused) ↦
          land s s' (failed (err (codes "start profiler: " ++ e))) t'
            (ground (arith, idle, refused, h))
            (record {
              lock = omega (arith, v.lock, (bad (err (codes "start profiler: " ++ e))).0);
              guard = omega (arith, v.guard, (bad (err (codes "start profiler: " ++ e))).1);
            })
    ]
  ]

  pub step-Books :
      (s s' : LockState) (t t' : Caller p busy) (e : Event)
      → collect_step p busy s t e ≡ some (s', t')
      → Books s (held + holds t) (running + profiles t)
      → Books s' (held + holds t') (running + profiles t')
  unfolding collect_step
  step-Books s s' (waiting n f) t' go h v = elim (Bool-cases s.locked) [
    | inl taken ↦ absurd (ground (arith, taken, h))
    | inr free ↦
        land (record s { locked = true }) s' (spawned n f) t' (ground (arith, free, h))
          (record { lock = ground (arith, free, v.lock); guard = v.guard })
  ]
  step-Books s s' (waiting n f) t' leaves h v = land s s' gone t' h v
  step-Books s s' (spawned n f) t' go h v =
      starts s s' t' (profiling n f) (finished n f) 1 (λ guard. (refl, refl)) (λ r. (refl, refl)) h
        v
  step-Books s s' (spawned n f) t' leaves h v =
      land (record s { locked = false }) s' (spawned_alone n f) t' h
        (record { lock = ground (arith, v.lock); guard = v.guard })
  step-Books s s' (profiling n f guard) t' go h v =
      land (record s { running = false }) s' (finished n f (after_sleep p busy n f guard)) t' h
        (record { lock = v.lock; guard = ground (arith, v.guard) })
  step-Books s s' (profiling n f guard) t' (panics e) h v =
      land (record s { running = false }) s' (finished n f (err (codes "join: " ++ e))) t' h
        (record { lock = v.lock; guard = ground (arith, v.guard) })
  step-Books s s' (profiling n f guard) t' leaves h v =
      land (record s { locked = false }) s' (profiling_alone n f guard) t' h
        (record { lock = ground (arith, v.lock); guard = v.guard })
  step-Books s s' (finished n f r) t' go h v =
      land (record s { locked = false }) s' (answered n f r) t' h
        (record { lock = ground (arith, v.lock); guard = v.guard })
  step-Books s s' (finished n f r) t' leaves h v =
      land (record s { locked = false }) s' gone t' h
        (record { lock = ground (arith, v.lock); guard = v.guard })
  step-Books s s' (spawned_alone n f) t' go h v =
      starts s s' t' (profiling_alone n f) (λ r. gone) 0 (λ guard. (refl, refl)) (λ r. (refl, refl))
        h v
  step-Books s s' (profiling_alone n f guard) t' go h v =
      land (record s { running = false }) s' gone t' h
        (record { lock = v.lock; guard = ground (arith, v.guard) })
  step-Books s s' (profiling_alone n f guard) t' (panics e) h v =
      land (record s { running = false }) s' gone t' h
        (record { lock = v.lock; guard = ground (arith, v.guard) })
  step-Books s s' t t' e h v = absurd (ground (arith, h))
