-- ===== src/Tests/Workers.antt =====
-- Runs of `serve_pooled` of main.rs.
use service_proxy.Workers.Holds.{serves}
use service_proxy.Workers.Line.{Runs, opened}
use service_proxy.Workers.Order.{arrivals, starts, first, Run-in_order}
use service_proxy.Workers.Progress.{Run-takes, Run-stalled, Run-unended}
use service_proxy.Workers.Refines.{line_kept, Run-refines}
use service_proxy.Workers.{
  Channel, returned, Worker, locking, handling, stopped, go, accepted, panicked, Label, silent,
  arrives, begins, breaks, Server, fresh, accept_step, worker_step, start, accepts, works, Run,
  here, later,
}
use service_proxy.Shared.Result.{ok, err}
use service_proxy.Shared.Text.{Text}
use service_proxy.Shared.{
  ℕ, ◌+◌, ◌≤◌, ◌<◌, ◌≡◌, ◌≢◌, refl, ◌⊎◌, ltb, Option, none, some, List, [], ◌∷◌, ◌++◌, length,
  total, if◌then◌else◌, arith,
}

-- A queue with a bound.
record Bounded : Type 0 where
  items : List ℕ
  room : ℕ

abbrev bounded : ℕ → Option Bounded
bounded n = if ltb 0 n then some (record { items = []; room = n }) else none

abbrev push : ℕ → Bounded → Option Bounded
push c q =
    if ltb (length q.items) q.room then some (record q { items = q.items ++ c ∷ [] }) else none

abbrev pop : Bounded → List ℕ → Option (ℕ × Bounded)
pop q [] = none
pop q (c ∷ rest) = some (c, record q { items = rest })

bounded-empty : (n : ℕ) (q : Bounded) → bounded n ≡ some q → (q.items ≡ []) × (q.room ≡ n)
bounded-empty n q h = (ground (arith, h), ground (arith, h))

push-last :
    (c : ℕ) (q q' : Bounded)
    → push c q ≡ some q'
    → (length q.items < q.room) × (q'.items ≡ q.items ++ c ∷ []) × (q'.room ≡ q.room)
push-last c q q' h = (ground (arith, h), ground (arith, h), ground (arith, h))

push-room : (c : ℕ) (q : Bounded) → length q.items < q.room → (q' : Bounded) × (push c q ≡ some q')
push-room c q h = (record q { items = q.items ++ c ∷ [] }, ground (arith, h))

pop-first :
    (c : ℕ) (q q' : Bounded) (xs : List ℕ)
    → pop q xs ≡ some (c, q')
    → (xs ≡ c ∷ q'.items) × (q'.room ≡ q.room)
pop-first c q q' [] h = absurd (cc)
pop-first c q q' (x ∷ xs) h = (ground (arith, h), ground (arith, h))

pop-some :
    (q : Bounded) (c : ℕ) (rest xs : List ℕ)
    → xs ≡ c ∷ rest
    → (q' : Bounded) × (pop q xs ≡ some (c, q'))
pop-some q c rest [] h = absurd (cc)
pop-some q c rest (x ∷ xs) h = (record q { items = xs }, ground (arith, h))

abbrev bounded_channel : Channel
bounded_channel = record {
  Chan = Bounded;
  channel = bounded;
  send = push;
  recv = λ q. pop q q.items;
  content = λ q. q.items;
  buffer = λ q. q.room;
  channel-zero = refl;
  channel-empty = bounded-empty;
  send-last = push-last;
  send-room = push-room;
  recv-first = λ c q q' h. pop-first c q q' q.items h;
  recv-some = λ q c rest h. pop-some q c rest q.items h;
}

-- A queue of two connections and one worker.
abbrev opening : Server bounded_channel
opening = fresh bounded_channel 1 (record { items = []; room = 2 })

opening-start : start bounded_channel 2 1 ≡ some opening
unfolding start
opening-start = refl

abbrev after : List ℕ → ℕ → Worker → Server bounded_channel
after items arrived w = record {
  shared = record opening.shared { chan = record { items = items; room = 2 }; arrived = arrived };
  workers = w ∷ [];
}

-- Two connections arrive, and the worker takes the first.
abbrev trace : List Label
trace = arrives 0 ∷ silent ∷ arrives 1 ∷ silent ∷ silent ∷ begins 0 ∷ []

two_arrive :
    Run bounded_channel opening
      (arrives 0 ∷ silent ∷ arrives 1 ∷ silent ∷ [])
      (after (0 ∷ 1 ∷ []) 2 locking)
unfolding accept_step
two_arrive =
    later
      (later (later (later here (accepts accepted refl)) (accepts go refl)) (accepts accepted refl))
      (accepts go refl)

one_taken : Run bounded_channel opening trace (after (1 ∷ []) 2 (handling 0))
unfolding worker_step
one_taken = later (later two_arrive (works 0 go refl refl)) (works 0 go refl refl)

Run-refines_example : Runs 2 (opened 1) trace (line_kept (after (1 ∷ []) 2 (handling 0)))
Run-refines_example = Run-refines bounded_channel 2 1 opening-start one_taken

Run-in_order_example :
    (arrivals trace ≡ first 2)
    × (k : ℕ) × (starts trace ≡ first k)
    × (k ≤ 2)
    × (2 ≤ k + 2 + 1)
    × ((c : ℕ) → total (serves c) (handling 0 ∷ []) ≤ 1)
Run-in_order_example = Run-in_order bounded_channel 2 1 opening-start one_taken

Run-takes_example :
    (u : Server bounded_channel) × (Run bounded_channel
        (after (0 ∷ 1 ∷ []) 2 locking)
        (begins 0 ∷ [])
        u
      ⊎ Run bounded_channel (after (0 ∷ 1 ∷ []) 2 locking) (silent ∷ begins 0 ∷ []) u)
Run-takes_example =
    Run-takes bounded_channel 2 1 0 (1 ∷ []) opening-start two_arrive refl (omega arith)

abbrev lost : Server bounded_channel
lost = record {
  shared = record (after (1 ∷ []) 2 stopped).shared { receivers = 1 };
  workers = stopped ∷ [];
}

-- `handle_conn` of the first connection panics.
broken : Run bounded_channel opening (trace ++ breaks 0 ∷ []) lost
unfolding worker_step
broken = later one_taken (works 0 panicked refl refl)

one_more : Run bounded_channel lost (arrives 2 ∷ silent ∷ []) (record {
  shared = record (after (1 ∷ 2 ∷ []) 3 stopped).shared { receivers = 1 };
  workers = stopped ∷ [];
})
unfolding accept_step
one_more = later (later here (accepts accepted refl)) (accepts go refl)

-- After `one_more`.
abbrev two_wait : Server bounded_channel
two_wait = record {
  shared = record (after (1 ∷ 2 ∷ []) 3 stopped).shared { receivers = 1 };
  workers = stopped ∷ [];
}

Run-stalled_example :
    (starts (arrives 2 ∷ silent ∷ []) ≡ [])
    × (3 ≤ 1 + 2 + 1)
    × (((e : Text) × (two_wait.shared.acceptor ≡ returned (err e)))
        ⊎ ((v : Server bounded_channel) × (ms : List Label) × Run bounded_channel two_wait ms v
            × (starts ms ≡ [])
            × (v.shared.arrived ≡ 1 + 2 + 1)))
Run-stalled_example = Run-stalled bounded_channel 2 1 opening-start broken refl one_more

Run-unended_example : (after (1 ∷ []) 2 (handling 0)).shared.acceptor ≢ returned (ok tt)
Run-unended_example = Run-unended bounded_channel 2 1 opening-start one_taken
