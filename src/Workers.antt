-- ===== src/Workers.antt =====
-- `serve_pooled` of crates/service-proxy/src/main.rs: the loop that accepts connections, the bounded
-- queue, and the workers that take connections from it. Each step is one access of what they share,
-- and the steps of the loop and of the workers interleave in any order.
pub mod Line
pub mod Holds
pub mod Works
pub mod Refines
pub mod Order
pub mod Runs
pub mod Fills
pub mod Progress
use service_proxy.Shared.Result.{Result, ok, err}
use service_proxy.Shared.Text.{Text}
use service_proxy.Shared.{
  ℕ, suc, ◌-◌, ◌+◌, ◌<◌, ◌≡◌, ◌==◌, Bool, true, false, Option, none, some, List, [], ◌∷◌, ◌++◌,
  length, get_elem?, set, replicate, if◌then◌else◌,
}

-- `mpsc::channel` of tokio for connections, which are named by the number of their accept. `channel`
-- gives nothing where it panics, `send` where it waits for room, and `recv` where nothing is queued.
-- `content` is what has been sent and not received.
pub record Channel : Type 1 where
  pub Chan : Type 0
  pub channel : ℕ → Option Chan
  pub send : ℕ → Chan → Option Chan
  pub recv : Chan → Option (ℕ × Chan)
  pub content : Chan → List ℕ
  pub buffer : Chan → ℕ
  pub channel-zero : channel 0 ≡ none
  pub channel-empty : (n : ℕ) (q : Chan) → channel n ≡ some q → (content q ≡ []) × (buffer q ≡ n)
  pub send-last :
      (c : ℕ) (q q' : Chan)
      → send c q ≡ some q'
      → (length (content q) < buffer q)
        × (content q' ≡ content q ++ c ∷ [])
        × (buffer q' ≡ buffer q)
  pub send-room :
      (c : ℕ) (q : Chan) → length (content q) < buffer q → (q' : Chan) × (send c q ≡ some q')
  pub recv-first :
      (c : ℕ) (q q' : Chan)
      → recv q ≡ some (c, q')
      → (content q ≡ c ∷ content q') × (buffer q' ≡ buffer q)
  pub recv-some :
      (q : Chan) (c : ℕ) (rest : List ℕ)
      → content q ≡ c ∷ rest
      → (q' : Chan) × (recv q ≡ some (c, q'))

-- Where the accept loop stands. An error is its message.
pub data Acceptor : Type 0 where
  accepting : Acceptor  -- in `ln.accept()`
  sending : ℕ → Acceptor  -- in `tx.send(conn)`
  returned : Result Text (Unit {0}) → Acceptor

-- Where a worker stands.
pub data Worker : Type 0 where
  locking : Worker  -- in `rx.lock()`
  receiving : Worker  -- in `guard.recv()`, with the guard
  handling : ℕ → Worker  -- in `handle_conn`
  stopped : Worker  -- after `break`, or after a panic in `handle_conn`

-- What the outside world decides: how an accept and a `handle_conn` end.
pub data Event : Type 0 where
  go : Event
  accepted : Event
  accept_failed : Text → Event
  handled : Event
  panicked : Event

-- What a client can see of a step.
pub data Label : Type 0 where
  silent : Label
  arrives : ℕ → Label
  begins : ℕ → Label
  ends : ℕ → Label
  breaks : ℕ → Label

-- What `serve_pooled` and its workers share. `receivers` counts the clones of `rx`, `serve_pooled`'s
-- own included, `locked` says that a worker has the guard, and `arrived` counts the accepts.
pub record Pooled (ch : Channel) : Type 0 where
  pub acceptor : Acceptor
  pub chan : ch.Chan
  pub receivers : ℕ
  pub locked : Bool
  pub arrived : ℕ

pub record Server (ch : Channel) : Type 0 where
  pub shared : Pooled ch
  pub workers : List Worker

module _ (ch : Channel) where
  -- `serve_pooled` as it enters its loop: each worker has a clone of `rx`.
  abbrev pub fresh : ℕ → ch.Chan → Server ch
  fresh worker_pool_size chan = record {
    shared = record {
      acceptor = accepting;
      chan = chan;
      receivers = suc worker_pool_size;
      locked = false;
      arrived = 0;
    };
    workers = replicate worker_pool_size locking;
  }

  -- `serve_pooled` up to its loop; `channel` may panic.
  unfoldable pub start : ℕ → ℕ → Option (Server ch)
  start worker_queue_depth worker_pool_size = elim (ch.channel worker_queue_depth) [
    | none ↦ none
    | some chan ↦ some (fresh worker_pool_size chan)
  ]

  -- `rx` goes out of scope.
  abbrev pub drop_rx : Pooled ch → Pooled ch
  drop_rx p = record p { receivers = p.receivers - 1 }

  -- `serve_pooled` returns, by `?` or after `break`.
  abbrev pub return_with : Result Text (Unit {0}) → Pooled ch → Pooled ch
  return_with r p = drop_rx (record p { acceptor = returned r })

  abbrev pub sent : Pooled ch → Option ch.Chan → Option (Pooled ch × Label)
  sent p none = none
  sent p (some chan) = some (record p { acceptor = accepting; chan = chan }, silent)

  -- The steps of the accept loop: `send` fails where no receiver is left.
  unfoldable pub accept_step : Pooled ch → Acceptor → Event → Option (Pooled ch × Label)
  accept_step p accepting accepted =
      some (record p { acceptor = sending p.arrived; arrived = suc p.arrived }, arrives p.arrived)
  accept_step p accepting (accept_failed e) = some (return_with (err e) p, silent)
  accept_step p (sending conn) go =
      if p.receivers == 0
      then some (return_with (ok tt) p, silent)
      else sent p (ch.send conn p.chan)
  accept_step p _ _ = none

  abbrev pub unlock : Pooled ch → Pooled ch
  unlock p = record p { locked = false }

  -- How `recv` ends: with a connection, with `None` once `tx` is gone and the queue is empty, or not
  -- yet. The guard is released in both.
  abbrev pub received :
      Pooled ch → Acceptor → Option (ℕ × ch.Chan) → Option (Pooled ch × Worker × Label)
  received p a (some (conn, chan)) =
      some (record p { chan = chan; locked = false }, handling conn, begins conn)
  received p (returned r) none = some (drop_rx (unlock p), stopped, silent)
  received p _ none = none

  -- The steps of a worker.
  unfoldable pub worker_step : Pooled ch → Worker → Event → Option (Pooled ch × Worker × Label)
  worker_step p locking go =
      if p.locked then none else some (record p { locked = true }, receiving, silent)
  worker_step p receiving go = received p p.acceptor (ch.recv p.chan)
  worker_step p (handling conn) handled = some (p, locking, ends conn)
  worker_step p (handling conn) panicked = some (drop_rx p, stopped, breaks conn)
  worker_step p _ _ = none

  -- The loop or one worker makes a step.
  pub data Step (s : Server ch) : Label → Server ch → Type 0 where
    accepts :
        (e : Event) {p : Pooled ch} {l : Label}
        → accept_step s.shared s.shared.acceptor e ≡ some (p, l)
        → Step s l (record s { shared = p })
    works :
        (i : ℕ) (e : Event) {w w' : Worker} {p : Pooled ch} {l : Label}
        → get_elem? s.workers i ≡ some w
        → worker_step s.shared w e ≡ some (p, w', l)
        → Step s l (record { shared = p; workers = set s.workers i w' })

  -- The runs, with the labels from first to last.
  pub data Run (s : Server ch) : List Label → Server ch → Type 0 where
    here : Run s [] s
    later :
        {ls : List Label} {t u : Server ch} {l : Label}
        → Run s ls t
        → Step t l u
        → Run s (ls ++ l ∷ []) u
