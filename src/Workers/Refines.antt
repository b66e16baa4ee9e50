-- ===== src/Workers/Refines.antt =====
-- `serve_pooled` of main.rs keeps the promise of the line.
use service_proxy.Workers.Holds.{has_guard, is_live, is_free, serves, line_of, Books, accept-Kept}
use service_proxy.Workers.Line.{Line, opened, Serves, Runs, Line-eq}
use service_proxy.Workers.Works.{worker-Kept}
use service_proxy.Workers.{
  Channel, Worker, locking, stopped, Label, Pooled, Server, fresh, start, Step, accepts, works, Run,
  here, later,
}
use service_proxy.Shared.{
  ℕ, ◌≡◌, refl, sym, subst, inl, inr, some, List, [], set, total, total-replicate,
  total-replicate_one, others_before, others_after, arith, Option-cases,
}
use mathlib.Core.Path.{subst₂}

module _ {ch : Channel} where
  -- The line that a server keeps: who serves a connection is forgotten.
  unfoldable pub line_kept : Server ch → Line
  line_kept s = line_of s.shared (total is_free s.workers) (λ c. total (serves c) s.workers)

  abbrev pub Good : ℕ → Server ch → Type 0
  Good depth s = Books depth s.shared (total has_guard s.workers) (total is_live s.workers)

  Books-at :
      {depth guards guards' live live' : ℕ} {p : Pooled ch}
      → guards ≡ guards'
      → live ≡ live'
      → Books depth p guards live
      → Books depth p guards' live'
  Books-at {depth} {p} eg el v = subst₂ (Books depth p) eg el v

  pub Step-serves :
      (depth : ℕ) {s t : Server ch} {l : Label}
      → Step ch s l t
      → Good depth s
      → Good depth t × Serves depth (line_kept s) l (line_kept t)
  unfolding line_kept
  Step-serves depth {s} (accepts e {p} {l} step) v =
      accept-Kept depth s.shared p l (total has_guard s.workers) (total is_live s.workers)
        (total is_free s.workers) (λ c. total (serves c) s.workers) v s.shared.acceptor e refl step
  Step-serves depth {s} (works i e {w} {w'} {p} {l} at step) v =
      let rest : List Worker = set s.workers i stopped in
      let (books, serving) =
        worker-Kept depth s.shared p w' l (total has_guard rest) (total is_live rest)
          (total is_free rest) (λ c. total (serves c) rest) w e step
          (Books-at (sym (others_before has_guard {z = stopped} refl s.workers i w at))
            (sym (others_before is_live {z = stopped} refl s.workers i w at)) v) in
      (
        Books-at (others_after has_guard {z = stopped} refl s.workers i w at w')
            (others_after is_live {z = stopped} refl s.workers i w at w') books,
        subst₂ (λ a b. Serves depth a l b)
            (Line-eq _ _ refl refl (others_before is_free {z = stopped} refl s.workers i w at)
              (λ c. others_before (serves c) {z = stopped} refl s.workers i w at))
            (Line-eq _ _ refl refl (others_after is_free {z = stopped} refl s.workers i w at w')
              (λ c. others_after (serves c) {z = stopped} refl s.workers i w at w'))
            serving,
      )

  pub start-Good :
      (depth workers : ℕ) {s : Server ch}
      → start ch depth workers ≡ some s
      → Good depth s × (line_kept s ≡ opened workers)
  unfolding start line_kept
  start-Good depth workers {s} started = elim (Option-cases (ch.channel depth)) [
    | inl panics ↦ absurd (ground (arith, panics))
    | inr (q, made) ↦
        let to : fresh ch workers q ≡ s = ground (arith, made) in
        let (bare, depth_of) = ch.channel-empty depth q made in
        rw (← to) (
          record {
            ordered = rw bare refl;
            buffer = depth_of;
            room = rw bare (omega arith);
            guard = total-replicate has_guard workers locking refl;
            clones = omega (arith, total-replicate_one is_live workers locking refl);
            unended = tt;
          },
          Line-eq _ _ refl (omega arith) (total-replicate_one is_free workers locking refl)
              (λ c. total-replicate (serves c) workers locking refl),
        )
  ]

  pub Run-kept :
      (depth workers : ℕ) {s t : Server ch} {ls : List Label}
      → start ch depth workers ≡ some s
      → Run ch s ls t
      → Good depth t × Runs depth (opened workers) ls (line_kept t)
  Run-kept depth workers started here =
      let (good, same) = start-Good depth workers started in
      (good, subst (λ l. Runs depth (opened workers) [] l) (sym same) Runs.here)
  Run-kept depth workers started (later run step) =
      let (good, runs) = Run-kept depth workers started run in
      let (good', serving) = Step-serves depth step good in (good', Runs.later runs serving)

-- Every run of `serve_pooled` and its workers, however their steps interleave, with the connections
-- that arrive, are begun, end and break their worker as its labels, is a run of the line with the
-- same labels and as many free workers, from the line that is empty to the one that the server
-- keeps. It holds for a queue whose depth does not make `channel` panic.
pub Run-refines :
    (ch : Channel) (worker_queue_depth worker_pool_size : ℕ) {s t : Server ch} {ls : List Label}
    → start ch worker_queue_depth worker_pool_size ≡ some s
    → Run ch s ls t
    → Runs worker_queue_depth (opened worker_pool_size) ls (line_kept t)
Run-refines ch worker_queue_depth worker_pool_size started run =
    (Run-kept worker_queue_depth worker_pool_size started run).1
