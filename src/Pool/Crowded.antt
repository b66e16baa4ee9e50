-- ===== src/Pool/Crowded.antt =====
-- Tasks over the limit in `get` of upstream/pool.rs beside a task that has just been woken.
use service_proxy.Dial.Types.{UpstreamError}
use service_proxy.Pool.Invariant.{Balanced, Reach-Balanced}
use service_proxy.Pool.Schedule.{play, play-Reach}
use service_proxy.Pool.Stranded.{AtRest, IsStuck, rest-IsStuck}
use service_proxy.Pool.Weights.{charge, slot}
use service_proxy.Pool.{
  Pool, Task, dropping, waiting, backing_off, finished, Event, go, woken, forward_step, System,
  init, Reach,
}
use service_proxy.Shared.Result.{err}
use service_proxy.Shared.Text.{Text}
use service_proxy.Shared.{
  ℕ, zero, suc, ◌≡◌, refl, ap, ap₂, ◌∙◌, inl, inr, true, ltb, some, List, [], ◌∷◌, length, total,
  get_elem?, arith,
}

-- A pool of one, whose connection has just been dropped, while a second task counts as well.
abbrev crowded : Text → ℕ → ℕ → Pool
crowded addr w opened = record {
  addr = addr;
  max_size = 1;
  idle = [];
  outstanding = 2;
  notifies = w;
  wakes = w;
  opened = opened;
}

abbrev emptied : Text → ℕ → ℕ → Pool
emptied addr w opened = record (crowded addr w opened) {
  outstanding = 0;
  notifies = suc w;
  wakes = suc w;
}

-- The drop is counted and notified, the waiting task wakes and finds no slot, and both back off.
abbrev schedule : List (ℕ × Event)
schedule = (0, go) ∷ (0, go) ∷ (1, woken) ∷ (1, go) ∷ (1, go) ∷ (2, go) ∷ (1, go) ∷ []

crowded-play :
    (addr : Text) (w opened : ℕ) (e : UpstreamError)
    → play
        (record { pool = crowded addr w opened; tasks = dropping e ∷ waiting ∷ backing_off ∷ [] })
        schedule
      ≡ some (record {
        pool = emptied addr w opened;
        tasks = finished (err e) ∷ waiting ∷ waiting ∷ [];
      })
unfolding play forward_step
crowded-play addr w opened e =
    let free : ltb w (suc w) ≡ true = ground arith in rw (free, play, forward_step) refl

crowded_rest :
    (k : ℕ) (t : Task) (e : UpstreamError)
    → get_elem? (finished (err e) ∷ waiting ∷ waiting ∷ []) k ≡ some t
    → AtRest t
crowded_rest zero t e at = let is : t ≡ finished (err e) = cc in inr (err e, is)
crowded_rest (suc zero) t e at = let is : t ≡ waiting = cc in inl is
crowded_rest (suc (suc zero)) t e at = let is : t ≡ waiting = cc in inl is
crowded_rest (suc (suc (suc k))) t e at = absurd cc

empty : (xs : List ℕ) → length xs ≡ 0 → xs ≡ []
empty [] h = refl
empty (x ∷ xs) h = absurd (omega arith)

as_crowded :
    (p : Pool)
    → p.max_size ≡ 1
    → p.idle ≡ []
    → p.outstanding ≡ 2
    → p.wakes ≡ p.notifies
    → p ≡ crowded p.addr p.notifies p.opened
as_crowded p one none_idle two quiet = rw (one, none_idle, two, quiet) refl

-- The accounts of the pool in such a state leave no choice.
crowded_pool :
    (addr : Text) (e : UpstreamError) {s : System}
    → Reach (init addr 1 3) s
    → s.tasks ≡ dropping e ∷ waiting ∷ backing_off ∷ []
    → s.pool.wakes ≡ s.pool.notifies
    → s.pool ≡ crowded s.pool.addr s.pool.notifies s.pool.opened
crowded_pool addr e {s} reach tasks quiet =
    as_crowded s.pool v.size none_idle
      (omega (arith, v.books.counted, ap length none_idle, ap (total charge) tasks)) quiet
  where
    v : Balanced 1 3 s
    v = Reach-Balanced addr (omega arith) reach

    none_idle : s.pool.idle ≡ []
    none_idle = empty s.pool.idle (omega (arith, v.books.room, v.size, ap (total slot) tasks))

-- A task over the limit can keep a woken task from the slot that is free. Take a state that three
-- tasks reach from a new pool of one connection, in which the first has dropped its connection after a
-- failed forward, the second waits, the third has found the pool full and not subtracted yet, and
-- every call of `notify_one` has been used up. They reach a state in which the first task has returned
-- its error, the other two wait, and no step is possible, although `outstanding` is 0.
pub backing_off-strands :
    (addr : Text) (e : UpstreamError) {s : System}
    → Reach (init addr 1 3) s
    → s.tasks ≡ dropping e ∷ waiting ∷ backing_off ∷ []
    → s.pool.wakes ≡ s.pool.notifies
    → (u : System) × Reach s u
      × (u.tasks ≡ finished (err e) ∷ waiting ∷ waiting ∷ [])
      × (u.pool.outstanding ≡ 0)
      × IsStuck u
backing_off-strands addr e {s} reach tasks quiet =
    let at_start : s ≡ record {
      pool = crowded s.pool.addr s.pool.notifies s.pool.opened;
      tasks = dropping e ∷ waiting ∷ backing_off ∷ [];
    } =
      ap₂ (λ p t. record { pool = p; tasks = t }) (crowded_pool addr e reach tasks quiet) tasks in
    let u : System = record {
      pool = emptied s.pool.addr s.pool.notifies s.pool.opened;
      tasks = finished (err e) ∷ waiting ∷ waiting ∷ [];
    } in
    (
      u,
      play-Reach s u schedule (
          ap (λ s. play s schedule) at_start
          ∙ crowded-play s.pool.addr s.pool.notifies s.pool.opened e),
      refl,
      refl,
      rest-IsStuck u refl (λ k t at. crowded_rest k t e at),
    )
