-- ===== src/Pool/Stranded.antt =====
-- A failed dial in `get` of upstream/pool.rs beside tasks that wait.
use service_proxy.Dial.Types.{Response, UpstreamError}
use service_proxy.Pool.Invariant.{Balanced, Reach-Balanced}
use service_proxy.Pool.Weights.{charge, slot}
use service_proxy.Pool.{
  Pool, Task, dialing, undoing, waiting, finished, Event, go, dial_failed, forward_step, System,
  init, Step, moves, Reach, here, later, sub_outstanding,
}
use service_proxy.Shared.Result.{Result, err}
use service_proxy.Shared.Text.{Text}
use native.Mathlib.Decide.{ℕ_discrete}
use service_proxy.Shared.{
  sym, ◌∙◌, subst, get_elem?-lt, ℕ, suc, ◌+◌, ◌^◌, ◌<◌, ◌≡◌, refl, ap, ◌⊎◌, ◌≢◌, inr, some, List,
  [], ◌∷◌, length, get_elem?, set, set-set, total, total-set, le-total, wrapping_sub, arith,
  get_elem?-set_self, get_elem?-set_ne,
}

-- A task that moves only if a wait ends.
abbrev pub AtRest : Task → Type 0
AtRest t = (t ≡ waiting) ⊎ ((r : Result UpstreamError Response) × (t ≡ finished r))

rest_stuck :
    (p p' : Pool) (t t' : Task) (e : Event)
    → p.wakes ≡ p.notifies
    → AtRest t
    → forward_step p t e ≢ some (p', t')
unfolding forward_step
rest_stuck p p' t t' e quiet rest step = ground arith

AtRest-charge : (t : Task) → AtRest t → charge t ≡ 0
AtRest-charge t rest = ground arith

total-zero :
    (w : Task → ℕ) (xs : List Task)
    → ((i : ℕ) (t : Task) → get_elem? xs i ≡ some t → w t ≡ 0)
    → total w xs ≡ 0
total-zero w [] none_weighs = refl
total-zero w (x ∷ xs) none_weighs =
    omega (arith, none_weighs 0 x refl, total-zero w xs (λ i t at. none_weighs (suc i) t at))

-- No step is possible from `s`.
abbrev pub IsStuck : System → Type 0
IsStuck s = (v : System) → ¬ Step s v

pub rest-IsStuck :
    (s : System)
    → s.pool.wakes ≡ s.pool.notifies
    → ((k : ℕ) (t : Task) → get_elem? s.tasks k ≡ some t → AtRest t)
    → IsStuck s
rest-IsStuck s quiet rest v (moves k e {t} {t'} {p} at step) =
    rest_stuck s.pool p t t' e quiet (rest k t at) step

-- The tasks once task `i` has finished.
finished_rest :
    (xs : List Task) (i k : ℕ) (r : Result UpstreamError Response) (t : Task)
    → ((k : ℕ) (t : Task) → i ≢ k → get_elem? xs k ≡ some t → AtRest t)
    → i < length xs
    → get_elem? (set xs i (finished r)) k ≡ some t
    → AtRest t
finished_rest xs i k r t rest lt at = elim (ℕ_discrete i k) [
  | yes same ↦
      let own = subst (λ k. get_elem? (set xs i (finished r)) k ≡ some t) (sym same) at in
      let is : t ≡ finished r = cc (own, get_elem?-set_self xs i (finished r) lt) in inr (r, is)
  | no other ↦ rest k t other (sym (get_elem?-set_ne xs i k (finished r) other) ∙ at)
]

-- The two steps of task `i` when its dial fails, and the state after them.
module _ (s : System) (i : ℕ) (at_dial : get_elem? s.tasks i ≡ some dialing)
    (e : UpstreamError) where
  in_range : i < length s.tasks
  in_range = get_elem?-lt s.tasks i at_dial

  abbrev after_dial : System
  after_dial = record { pool = s.pool; tasks = set s.tasks i (undoing e) }

  abbrev after_undo : System
  after_undo = record {
    pool = sub_outstanding s.pool;
    tasks = set (set s.tasks i (undoing e)) i (finished (err e));
  }

  after_dial-Step : Step s after_dial
  unfolding forward_step
  after_dial-Step = moves i (dial_failed e) at_dial refl

  after_undo-Step : Step after_dial after_undo
  unfolding forward_step
  after_undo-Step = moves i go (get_elem?-set_self s.tasks i (undoing e) in_range) refl

  after_undo-tasks : after_undo.tasks ≡ set s.tasks i (finished (err e))
  after_undo-tasks = set-set s.tasks i (undoing e) (finished (err e))

  after_undo-own : get_elem? after_undo.tasks i ≡ some (finished (err e))
  after_undo-own = rw after_undo-tasks (get_elem?-set_self s.tasks i (finished (err e)) in_range)

  module _ (rest : (k : ℕ) (t : Task) → i ≢ k → get_elem? s.tasks k ≡ some t → AtRest t) where
    after_undo-rest : (k : ℕ) (t : Task) → get_elem? after_undo.tasks k ≡ some t → AtRest t
    after_undo-rest k t at =
        finished_rest s.tasks i k (err e) t rest in_range
          (sym (ap (λ xs. get_elem? xs k) after_undo-tasks) ∙ at)

    one_charge : total charge s.tasks ≡ 1
    one_charge = omega (
      arith,
      total-set charge s.tasks i dialing (finished (err e)) at_dial,
      ap (total charge) after_undo-tasks,
      total-zero charge after_undo.tasks (λ k t at. AtRest-charge t (after_undo-rest k t at)),
    )

  after_undo-other :
      (j : ℕ) → get_elem? s.tasks j ≡ some waiting → get_elem? after_undo.tasks j ≡ some waiting
  after_undo-other j at_wait =
      rw after_undo-tasks (get_elem?-set_ne s.tasks i j (finished (err e)) dialing_waits ∙ at_wait)
    where
      dialing_waits : i ≢ j
      dialing_waits same =
          let moved = subst (λ k. get_elem? s.tasks k ≡ some waiting) (sym same) at_wait in cc

-- `get` gives back the slot of a failed dial without a call of `notify_one`, so a task that waits
-- can be left behind. Take a state that `n` tasks reach from a new pool, in which task `i` is in
-- `dial`, task `j` waits, each other task waits or has finished, and every call of `notify_one` has
-- been used up. If the dial fails, with any error, they reach a state in which task `i` has
-- returned that error and task `j` still waits although `outstanding` is below `max_size`, and from
-- which no step is possible. It holds where `max_size` and `n` together are below 2 ^ 64 - 2.
pub dial_failed-strands :
    (addr : Text) (max_size n : ℕ) {s : System} (i j : ℕ) (e : UpstreamError)
    → max_size + n + 2 < 2 ^ 64
    → Reach (init addr max_size n) s
    → get_elem? s.tasks i ≡ some dialing
    → get_elem? s.tasks j ≡ some waiting
    → ((k : ℕ) (t : Task) → i ≢ k → get_elem? s.tasks k ≡ some t → AtRest t)
    → s.pool.wakes ≡ s.pool.notifies
    → (u : System) × Reach s u
      × (get_elem? u.tasks i ≡ some (finished (err e)))
      × (get_elem? u.tasks j ≡ some waiting)
      × (u.pool.outstanding < u.pool.max_size)
      × IsStuck u
dial_failed-strands addr max_size n {s} i j e small r at_dial at_wait rest quiet = (
  after_undo s i at_dial e,
  later (later here (after_dial-Step s i at_dial e)) (after_undo-Step s i at_dial e),
  after_undo-own s i at_dial e,
  after_undo-other s i at_dial e j at_wait,
  room_left,
  rest-IsStuck (after_undo s i at_dial e) quiet (after_undo-rest s i at_dial e rest),
)
  where
    v : Balanced max_size n s
    v = Reach-Balanced addr small r

    room_left : wrapping_sub s.pool.outstanding 1 < s.pool.max_size
    room_left = omega (
      arith,
      v.books.counted,
      v.books.room,
      v.size,
      le-total slot s.tasks i dialing at_dial,
      one_charge s i at_dial e rest,
    )
