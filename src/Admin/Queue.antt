-- ===== src/Admin/Queue.antt =====
-- Requests for profiles side by side: `collect` of pprof_server.rs with its lock, and clients that go
-- away while they wait. hyper drops the handler of a client that disconnects, and with it the guard
-- of `PROFILE_LOCK`; the task of `spawn_blocking` goes on.
pub mod Lock
pub mod Alone
pub mod Answers
pub mod Ends
pub mod Abandoned
use service_proxy.Admin.{Format}
use service_proxy.Admin.Profile.{Profiler, prefixed, blocklist, encode_report}
use service_proxy.Shared.Result.{Result, ok, err, map_err, ◌>>=◌}
use service_proxy.Shared.Text.{Text, codes}
use service_proxy.Shared.{
  ℕ, ◌≡◌, Bool, true, false, Option, none, some, List, [], ◌∷◌, ◌++◌, get_elem?, set, if◌then◌else◌,
}

pub data Event : Type 0 where
  go : Event
  panics : Text → Event  -- the blocking task panics, and what tokio says of it
  leaves : Event  -- the client goes away

-- `PROFILE_LOCK`, and whether a guard of the profiler is alive.
pub record LockState : Type 0 where
  pub locked : Bool
  pub running : Bool

-- The profiler refuses to start while one of its guards is alive; `busy` is what it says then.
module _ (p : Profiler) (busy : Text) where
  -- Where a request stands, with its seconds and its format.
  pub data Caller : Type 0 where
    waiting : ℕ → Format → Caller  -- in `lock().await`
    spawned : ℕ → Format → Caller  -- the task of `spawn_blocking` is queued
    profiling : ℕ → Format → p.Guard → Caller  -- it sleeps
    finished : ℕ → Format → Result Text (List ℕ) → Caller  -- it has ended
    answered : ℕ → Format → Result Text (List ℕ) → Caller
    spawned_alone : ℕ → Format → Caller  -- its client is gone
    profiling_alone : ℕ → Format → p.Guard → Caller
    gone : Caller

  -- `build`
  abbrev pub build : LockState → Result Text p.Guard
  build s = if s.running then err busy else p.build 100 blocklist

  -- `profile_blocking`, once the profiler runs.
  unfoldable pub after_sleep : ℕ → Format → p.Guard → Result Text (List ℕ)
  unfolding encode_report
  after_sleep seconds format guard = do
    report ← map_err (prefixed (codes "build report: ")) (p.report seconds guard)
    encode_report p format report

  abbrev pub start_step :
      LockState
      → Result Text p.Guard
      → (p.Guard → Caller)
      → (Result Text (List ℕ) → Caller)
      → LockState × Caller
  start_step s (ok guard) to failed = (record s { running = true }, to guard)
  start_step s (err e) to failed = (s, failed (err (codes "start profiler: " ++ e)))

  -- The steps of a request and of its task.
  unfoldable pub collect_step : LockState → Caller → Event → Option (LockState × Caller)
  unfolding after_sleep
  collect_step s (waiting n f) go =
      if s.locked then none else some (record s { locked = true }, spawned n f)
  collect_step s (waiting n f) leaves = some (s, gone)
  collect_step s (spawned n f) go = some (start_step s (build s) (profiling n f) (finished n f))
  collect_step s (spawned n f) leaves = some (record s { locked = false }, spawned_alone n f)
  collect_step s (profiling n f guard) go =
      some (record s { running = false }, finished n f (after_sleep n f guard))
  collect_step s (profiling n f guard) (panics e) =
      some (record s { running = false }, finished n f (err (codes "join: " ++ e)))
  collect_step s (profiling n f guard) leaves =
      some (record s { locked = false }, profiling_alone n f guard)
  collect_step s (finished n f r) go = some (record s { locked = false }, answered n f r)
  collect_step s (finished n f r) leaves = some (record s { locked = false }, gone)
  collect_step s (spawned_alone n f) go =
      some (start_step s (build s) (profiling_alone n f) (λ r. gone))
  collect_step s (profiling_alone n f guard) go = some (record s { running = false }, gone)
  collect_step s (profiling_alone n f guard) (panics e) = some (record s { running = false }, gone)
  collect_step s _ _ = none

  pub record System : Type 0 where
    pub shared : LockState
    pub callers : List Caller

  abbrev pub requests : List (ℕ × Format) → List Caller
  requests [] = []
  requests ((n, f) ∷ jobs) = waiting n f ∷ requests jobs

  -- The lock is free, no profile runs, and these requests come.
  abbrev pub init : List (ℕ × Format) → System
  init jobs = record {
    shared = record { locked = false; running = false };
    callers = requests jobs;
  }

  pub data Step (s : System) : System → Type 0 where
    moves :
        (i : ℕ) (e : Event) {t t' : Caller} {c : LockState}
        → get_elem? s.callers i ≡ some t
        → collect_step s.shared t e ≡ some (c, t')
        → Step s (record { shared = c; callers = set s.callers i t' })

  pub data Reach (s : System) : System → Type 0 where
    here : Reach s s
    later : {t u : System} → Reach s t → Step t u → Reach s u
