-- ===== src/Pool/Schedule.antt =====
-- Runs of upstream/pool.rs in a given order.
use service_proxy.Pool.{Task, Event, forward_step, System, Step, moves, Reach, here, later}
use service_proxy.Shared.{
  ℕ, ◌≡◌, subst, arith, inl, inr, Option, none, some, List, [], ◌∷◌, get_elem?, set, Option-cases,
}

step_task : System → ℕ → Event → Task → Option System
step_task s i e t = elim (forward_step s.pool t e) [
  | none ↦ none
  | some (p, t') ↦ some (record { pool = p; tasks = set s.tasks i t' })
]

step_at : System → ℕ → Event → Option System
unfolding step_task
step_at s i e = elim (get_elem? s.tasks i) [ none ↦ none | some t ↦ step_task s i e t ]

-- Let the tasks move in this order, each with its event.
unfoldable pub play : System → List (ℕ × Event) → Option System
unfolding step_at
play s [] = some s
play s ((i, e) ∷ rest) = elim (step_at s i e) [ none ↦ none | some u ↦ play u rest ]

step_at-Step : (s u : System) (i : ℕ) (e : Event) → step_at s i e ≡ some u → Step s u
unfolding step_at
step_at-Step s u i e h = elim (Option-cases (get_elem? s.tasks i)) [
  | inl missing ↦ absurd (ground arith)
  | inr (t, found) ↦ elim (Option-cases (forward_step s.pool t e)) [
    | inl stuck ↦ absurd (ground arith)
    | inr ((p, t'), step) ↦
        let to : System = record { pool = p; tasks = set s.tasks i t' } in
        let reached : to ≡ u = ground arith in subst (Step s) reached (moves i e found step)
  ]
]

pub Reach-trans : {s t u : System} → Reach s t → Reach t u → Reach s u
Reach-trans r here = r
Reach-trans r (later q step) = later (Reach-trans r q) step

pub play-Reach : (s u : System) (l : List (ℕ × Event)) → play s l ≡ some u → Reach s u
unfolding play
play-Reach s u [] h = let same : s ≡ u = cc in subst (Reach s) same here
play-Reach s u ((i, e) ∷ rest) h = elim (Option-cases (step_at s i e)) [
  | inl stuck ↦ absurd (ground arith)
  | inr (t, step) ↦
      Reach-trans (later here (step_at-Step s t i e step)) (play-Reach t u rest (ground arith))
]
