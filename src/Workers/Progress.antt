-- ===== src/Workers/Progress.antt =====
-- What keeps `serve_pooled` of main.rs going, and what stops it.
use service_proxy.Workers.Holds.{has_guard, is_live, is_free, HasNotEnded, line, pending}
use service_proxy.Workers.Order.{starts, starts-append, Run-waiting}
use service_proxy.Workers.Runs.{Run-append}
use service_proxy.Workers.Fills.{fills}
use service_proxy.Workers.Refines.{Good, Run-kept}
use service_proxy.Workers.{
  Channel, Acceptor, accepting, sending, returned, Worker, locking, receiving, handling, stopped,
  Event, go, Label, silent, arrives, begins, Pooled, Server, accepted, accept_failed, accept_step,
  worker_step, start, Step, accepts, works, Run, here, later,
}
use service_proxy.Shared.Result.{ok, err}
use service_proxy.Shared.Text.{Text}
use service_proxy.Shared.{
  ℕ, suc, ◌+◌, ◌≤◌, ◌<◌, ◌≡◌, ◌≢◌, refl, sym, ap, subst, ◌∙◌, ◌⊎◌, inl, inr, true, false, some,
  none, List, [], ◌∷◌, ◌++◌, length, length-append, get_elem?, set, total, get_elem?-set_self,
  get_elem?-lt, le-total, append-nil, ap₂, arith, Bool-cases, Option-cases,
}

-- A list in which the guards are not none has a worker with the guard.
guard-at : (ws : List Worker) → 0 < total has_guard ws → (i : ℕ) × (get_elem? ws i ≡ some receiving)
guard-at [] h = absurd (omega arith)
guard-at (receiving ∷ ws) h = (0, refl)
guard-at (locking ∷ ws) h = let (i, at) = guard-at ws (omega (arith, h)) in (suc i, at)
guard-at (handling c ∷ ws) h = let (i, at) = guard-at ws (omega (arith, h)) in (suc i, at)
guard-at (stopped ∷ ws) h = let (i, at) = guard-at ws (omega (arith, h)) in (suc i, at)

free-at :
    (ws : List Worker)
    → 0 < total is_free ws
    → total has_guard ws ≡ 0
    → (i : ℕ) × (get_elem? ws i ≡ some locking)
free-at [] h g = absurd (omega arith)
free-at (receiving ∷ ws) h g = absurd (omega arith)
free-at (locking ∷ ws) h g = (0, refl)
free-at (handling c ∷ ws) h g =
    let (i, at) = free-at ws (omega (arith, h)) (omega (arith, g)) in (suc i, at)
free-at (stopped ∷ ws) h g =
    let (i, at) = free-at ws (omega (arith, h)) (omega (arith, g)) in (suc i, at)

module _ {ch : Channel} where
  -- The worker with the guard takes the first connection of the queue.
  takes :
      (s : Server ch) (i c : ℕ) (rest : List ℕ)
      → get_elem? s.workers i ≡ some receiving
      → ch.content s.shared.chan ≡ c ∷ rest
      → (u : Server ch) × Step ch s (begins c) u
  unfolding worker_step
  takes s i c rest at queued =
      let (q, got) = ch.recv-some s.shared.chan c rest queued in
      (
        record {
          shared = record s.shared { chan = q; locked = false };
          workers = set s.workers i (handling c);
        },
        works i go at (rw got refl),
      )

  locks :
      (s : Server ch) (i c : ℕ) (rest : List ℕ)
      → get_elem? s.workers i ≡ some locking
      → s.shared.locked ≡ false
      → ch.content s.shared.chan ≡ c ∷ rest
      → (u : Server ch) × Run ch s (silent ∷ begins c ∷ []) u
  unfolding worker_step
  locks s i c rest at unlocked queued =
      let t : Server ch = record {
        shared = record s.shared { locked = true };
        workers = set s.workers i receiving;
      } in
      let first : Step ch s silent t = works i go at (rw unlocked refl) in
      let (u, second) =
        takes t i c rest (get_elem?-set_self s.workers i receiving (get_elem?-lt s.workers i at))
          queued in
      (u, later (later here first) second)

-- From every state that `serve_pooled` and its workers reach with a connection in the queue and a
-- free worker, the workers alone take the first connection of the queue in at most two steps.
pub Run-takes :
    (ch : Channel) (worker_queue_depth worker_pool_size : ℕ) {s t : Server ch} {ls : List Label}
    (c : ℕ) (rest : List ℕ)
    → start ch worker_queue_depth worker_pool_size ≡ some s
    → Run ch s ls t
    → ch.content t.shared.chan ≡ c ∷ rest
    → 0 < total is_free t.workers
    → (u : Server ch) × (Run ch t (begins c ∷ []) u ⊎ Run ch t (silent ∷ begins c ∷ []) u)
Run-takes ch depth workers {t} c rest started run queued free = elim (Bool-cases t.shared.locked) [
  | inl locked ↦
      let (i, at) = guard-at t.workers (ground (arith, good.guard, locked)) in
      let (u, step) = takes t i c rest at queued in (u, inl (later here step))
  | inr unlocked ↦
      let (i, at) = free-at t.workers free (ground (arith, good.guard, unlocked)) in
      let (u, steps) = locks t i c rest at unlocked queued in (u, inr steps)
]
  where
    good : Good depth t
    good = (Run-kept depth workers started run).0

-- At most one connection waits beside the queue.
line-length : {ch : Channel} (p : Pooled ch) → length (line p) ≤ length (ch.content p.chan) + 1
line-length {ch} p = go_by p.acceptor
  where
    go_by :
        (a : Acceptor) → length (ch.content p.chan ++ pending a) ≤ length (ch.content p.chan) + 1
    go_by accepting = omega (arith, length-append (ch.content p.chan) [])
    go_by (sending c) = omega (arith, length-append (ch.content p.chan) (c ∷ []))
    go_by (returned r) = omega (arith, length-append (ch.content p.chan) [])

module _ {ch : Channel} where
  -- A worker that has stopped makes no step.
  stopped-still :
      (p : Pooled ch) (w : Worker) → is_live w ≡ 0 → (e : Event) → worker_step ch p w e ≡ none
  unfolding worker_step
  stopped-still p stopped h e = refl
  stopped-still p locking h e = absurd (omega (arith, h))
  stopped-still p receiving h e = absurd (omega (arith, h))
  stopped-still p (handling c) h e = absurd (omega (arith, h))

  begins_none :
      (p : Pooled ch) (a : Acceptor) (e : Event) (p' : Pooled ch) (l : Label)
      → accept_step ch p a e ≡ some (p', l)
      → starts (l ∷ []) ≡ []
  unfolding accept_step
  begins_none p accepting accepted p' l h =
      let seen : arrives p.arrived ≡ l = cc in rw (← seen) refl
  begins_none p accepting (accept_failed e) p' l h =
      let quiet : silent ≡ l = cc in rw (← quiet) refl
  begins_none p (sending conn) go p' l h = elim (Option-cases (ch.send conn p.chan)) [
    | inl full ↦ ground (arith, full, h)
    | inr (q, room) ↦ ground (arith, room, h)
  ]
  begins_none p a e p' l h = absurd (ground (arith, h))

  stalled :
      {t u : Server ch} {ls : List Label}
      → total is_live t.workers ≡ 0
      → Run ch t ls u
      → (total is_live u.workers ≡ 0) × (starts ls ≡ [])
  stalled dead here = (dead, refl)
  stalled dead (later {ls} {l} run (accepts e {p} step)) =
      let (still, nothing) = stalled dead run in
      (still, starts-append ls (l ∷ []) ∙ ap₂ ◌++◌ nothing (begins_none _ _ e p l step))
  stalled dead (later {t = s} run (works i e {w} at step)) =
      let (still, nothing) = stalled dead run in
      let out : is_live w ≡ 0 = omega (arith, still, le-total is_live s.workers i w at) in
      absurd (ground (arith, stopped-still s.shared w out e, step))

-- Workers that break are not replaced: once no worker is left that has not stopped, no connection is
-- taken, however the run goes on, and at most one connection more than the depth of the queue waits.
-- Unless an `accept` has failed, which has ended `serve_pooled` with that error, the run can go on, from
-- wherever it stands, and accepts connections, of which none is taken either, until as many are accepted
-- and not taken as the queue holds and one more.
pub Run-stalled :
    (ch : Channel) (worker_queue_depth worker_pool_size : ℕ) {s t u : Server ch}
    {ks ls : List Label}
    → start ch worker_queue_depth worker_pool_size ≡ some s
    → Run ch s ks t
    → total is_live t.workers ≡ 0
    → Run ch t ls u
    → (starts ls ≡ [])
      × (u.shared.arrived ≤ length (starts ks) + worker_queue_depth + 1)
      × (((e : Text) × (u.shared.acceptor ≡ returned (err e)))
          ⊎ ((v : Server ch) × (ms : List Label) × Run ch u ms v
              × (starts ms ≡ [])
              × (v.shared.arrived ≡ length (starts ks) + worker_queue_depth + 1)))
Run-stalled ch depth workers {u} {ks} {ls} started run dead on =
    let (_, nothing) = stalled dead on in
    let whole = Run-append run on in
    let count : length (starts (ks ++ ls)) ≡ length (starts ks) =
      ap length
        (starts-append ks ls ∙ ap (λ xs. starts ks ++ xs) nothing ∙ append-nil (starts ks)) in
    let good : Good depth u = (Run-kept depth workers started whole).0 in
    let waiting : length (starts ks) + length (line u.shared) ≡ u.shared.arrived =
      ap (λ n. n + length (line u.shared)) (sym count)
      ∙ Run-waiting ch depth workers started whole in
    (
      nothing,
      omega (arith, waiting, good.room, line-length u.shared),
      elim (fills depth u good) [
        | inl failed ↦ inl failed
        | inr f ↦
            let more : length (starts ((ks ++ ls) ++ f.labels)) ≡ length (starts ks) =
              ap length (
                starts-append (ks ++ ls) f.labels
                ∙ ap (λ xs. starts (ks ++ ls) ++ xs) f.nothing
                ∙ append-nil (starts (ks ++ ls)))
              ∙ count in
            inr (
              f.last,
              f.labels,
              f.run,
              f.nothing,
              omega (
                arith,
                more,
                f.full,
                Run-waiting ch depth workers started (Run-append whole f.run),
              ),
            )
      ],
    )

-- While `serve_pooled` runs, its own clone of `rx` keeps `tx.send` from failing: the loop never ends
-- with `Ok`, whatever the workers do, but only with the error of an `accept`.
pub Run-unended :
    (ch : Channel) (worker_queue_depth worker_pool_size : ℕ) {s t : Server ch} {ls : List Label}
    → start ch worker_queue_depth worker_pool_size ≡ some s
    → Run ch s ls t
    → t.shared.acceptor ≢ returned (ok tt)
Run-unended ch depth workers {t} started run ended =
    subst HasNotEnded ended (Run-kept depth workers started run).0.unended
