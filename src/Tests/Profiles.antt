-- ===== src/Tests/Profiles.antt =====
-- Runs of requests for profiles, pprof_server.rs.
use service_proxy.Admin.{Format, protobuf, flamegraph}
use service_proxy.Admin.Profile.{Profiler, collect}
use service_proxy.Admin.Queue.Abandoned.{leaves-refuses}
use service_proxy.Admin.Queue.Answers.{Reach-answered}
use service_proxy.Admin.Queue.Ends.{Reach-ends, work, steps}
use service_proxy.Admin.Queue.{
  Event, go, LockState, Caller, answered, profiling_alone, collect_step, System, init, Reach, here,
  later, moves,
}
use service_proxy.Shared.Result.{ok, err}
use service_proxy.Shared.Text.{Text, codes}
use service_proxy.Shared.{
  ℕ, ◌+◌, ◌*◌, ◌≤◌, ◌≡◌, ◌⊎◌, refl, false, none, some, List, [], ◌∷◌, ◌++◌, length, get_elem?, set,
  total, arith,
}

-- A profiler whose reports are the seconds.
abbrev profiler : Profiler
profiler = record {
  Guard = ℕ;
  Report = ℕ;
  Profile = ℕ;
  build = λ frequency blocked. ok frequency;
  report = λ seconds guard. ok seconds;
  pprof = λ report. ok report;
  no_samples = λ profile. false;
  encode = λ profile. ok (profile ∷ []);
  flamegraph = λ report. ok (report ∷ report ∷ []);
}

abbrev busy : Text
busy = codes "start running cpu profiler"

abbrev jobs : List (ℕ × Format)
jobs = (5, protobuf) ∷ (7, flamegraph) ∷ []

abbrev moved : System profiler busy → ℕ → Event → System profiler busy
moved s i e = elim (get_elem? s.callers i) [
  | none ↦ s
  | some t ↦ elim (collect_step profiler busy s.shared t e) [
    | none ↦ s
    | some (c, t') ↦ record { shared = c; callers = set s.callers i t' }
  ]
]

abbrev first_profiles : System profiler busy
first_profiles = moved (moved (init profiler busy jobs) 0 go) 0 go

first_profiles-Reach : Reach profiler busy (init profiler busy jobs) first_profiles
unfolding collect_step
first_profiles-Reach = later (later here (moves 0 go refl refl)) (moves 0 go refl refl)

abbrev first_answered : System profiler busy
first_answered = moved (moved first_profiles 0 go) 0 go

first_answered-Reach : Reach profiler busy (init profiler busy jobs) first_answered
unfolding collect_step
first_answered-Reach =
    later (later first_profiles-Reach (moves 0 go refl refl)) (moves 0 go refl refl)

abbrev both_answered : System profiler busy
both_answered = moved (moved (moved (moved first_answered 1 go) 1 go) 1 go) 1 go

both_answered-Reach : Reach profiler busy (init profiler busy jobs) both_answered
unfolding collect_step
both_answered-Reach =
    later
      (later (later (later first_answered-Reach (moves 1 go refl refl)) (moves 1 go refl refl))
        (moves 1 go refl refl))
      (moves 1 go refl refl)

Reach-answered_example :
    (get_elem? jobs 1 ≡ some (7, flamegraph))
    × (ok (7 ∷ 7 ∷ []) ≡ collect profiler none 7 flamegraph)
unfolding collect_step both_answered-Reach first_answered-Reach first_profiles-Reach
Reach-answered_example =
    Reach-answered profiler busy jobs both_answered-Reach refl 1 7 flamegraph (ok (7 ∷ 7 ∷ [])) refl

leaves-refuses_example :
    (u : System profiler busy) × Reach profiler busy first_profiles u
    × (get_elem? u.callers 0 ≡ some (profiling_alone 5 protobuf 100))
    × (get_elem? u.callers 1
        ≡ some (answered 7 flamegraph (err (codes "start profiler: " ++ busy))))
unfolding collect_step
leaves-refuses_example =
    leaves-refuses profiler busy jobs 0 1 5 7 protobuf flamegraph 100 first_profiles-Reach
      (omega arith) refl refl

Reach-ends_example :
    (steps profiler busy both_answered-Reach + total (work profiler busy) both_answered.callers
      ≤ 4 * length jobs)
    × ((total (work profiler busy) both_answered.callers ≡ 0)
        ⊎ ((k : ℕ) × (t : Caller profiler busy) × (get_elem? both_answered.callers k ≡ some t)
            × (after : LockState × Caller profiler busy) × (collect_step profiler busy
                  both_answered.shared t go
                ≡ some after)))
Reach-ends_example = Reach-ends profiler busy jobs both_answered-Reach
