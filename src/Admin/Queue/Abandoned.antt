-- ===== src/Admin/Queue/Abandoned.antt =====
-- A profile whose client goes away: pprof_server.rs.
use service_proxy.Admin.{Format}
use service_proxy.Admin.Profile.{Profiler}
use service_proxy.Admin.Queue.Answers.{Reach-Queue}
use service_proxy.Admin.Queue.Lock.{profiles, one_if}
use service_proxy.Admin.Queue.{
  go, leaves, LockState, Caller, waiting, spawned, profiling, finished, answered, profiling_alone,
  collect_step, System, init, moves, Reach, here, later,
}
use service_proxy.Shared.Result.{Result, err}
use service_proxy.Shared.Text.{Text, codes}
use service_proxy.Shared.{
  ℕ, ◌≡◌, ◌≢◌, ◌≤◌, ◌<◌, refl, sym, ◌∙◌, Bool, true, false, some, List, ◌++◌, get_elem?, set,
  get_elem?-set_self, get_elem?-set_ne, get_elem?-lt, length, length-set, le-total, arith,
}

module _ (p : Profiler) (busy : Text) where
  is_running : (b : Bool) → 1 ≤ one_if b → b ≡ true
  is_running true h = refl
  is_running false h = absurd (omega arith)

  refused :
      (s : LockState) (m : ℕ) (g : Format)
      → s.running ≡ true
      → collect_step p busy s (spawned m g) go
        ≡ some (s, finished m g (err (codes "start profiler: " ++ busy)))
  unfolding collect_step
  refused s m g runs = rw runs refl

  -- From every state that requests for profiles reach, from a free lock, in which `i` profiles and `j`
  -- waits, they can reach one in which the client of `i` is gone while its task still profiles, and `j`
  -- has been answered that the profiler does not start.
  pub leaves-refuses :
      (jobs : List (ℕ × Format)) {s : System p busy} (i j n m : ℕ) (f g : Format) (guard : p.Guard)
      → Reach p busy (init p busy jobs) s
      → i ≢ j
      → get_elem? s.callers i ≡ some (profiling n f guard)
      → get_elem? s.callers j ≡ some (waiting m g)
      → (u : System p busy) × Reach p busy s u
        × (get_elem? u.callers i ≡ some (profiling_alone n f guard))
        × (get_elem? u.callers j ≡ some (answered m g (err (codes "start profiler: " ++ busy))))
  unfolding collect_step
  leaves-refuses jobs {s} i j n m f g guard reach apart profiled waits = (
    record { shared = free; callers = set c3 j (answered m g no_profile) },
    later
        (later (later (later here (moves i leaves profiled refl)) (moves j go waits1 refl))
          (moves j go (get_elem?-set_self c1 j (spawned m g) lt1) (refused taken m g runs)))
        (moves j go (get_elem?-set_self c2 j (finished m g no_profile) lt2) refl),
    get_elem?-set_ne c3 j i (answered m g no_profile) apart'
        ∙ get_elem?-set_ne c2 j i (finished m g no_profile) apart'
        ∙ get_elem?-set_ne c1 j i (spawned m g) apart'
        ∙ get_elem?-set_self s.callers i (profiling_alone n f guard)
            (get_elem?-lt s.callers i profiled),
    get_elem?-set_self c3 j (answered m g no_profile) lt3,
  )
    where
      apart' : j ≢ i
      apart' = λ e. apart (sym e)

      no_profile : Result Text (List ℕ)
      no_profile = err (codes "start profiler: " ++ busy)

      free : LockState
      free = record s.shared { locked = false }

      taken : LockState
      taken = record s.shared { locked = true }

      c1 : List (Caller p busy)
      c1 = set s.callers i (profiling_alone n f guard)

      c2 : List (Caller p busy)
      c2 = set c1 j (spawned m g)

      c3 : List (Caller p busy)
      c3 = set c2 j (finished m g no_profile)

      waits1 : get_elem? c1 j ≡ some (waiting m g)
      waits1 = get_elem?-set_ne s.callers i j (profiling_alone n f guard) apart ∙ waits

      lt1 : j < length c1
      lt1 = get_elem?-lt c1 j waits1

      lt2 : j < length c2
      lt2 = omega (arith, length-set c1 j (spawned m g), lt1)

      lt3 : j < length c3
      lt3 = omega (arith, length-set c2 j (finished m g no_profile), lt2)

      runs : s.shared.running ≡ true
      runs = is_running s.shared.running (
          omega (
            arith,
            le-total profiles s.callers i (profiling n f guard) profiled,
            (Reach-Queue p busy jobs reach).books.guard,
          ))
