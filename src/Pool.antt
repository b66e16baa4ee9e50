-- ===== src/Pool.antt =====
-- crates/service-proxy/src/upstream/pool.rs: the bounded pool of connections to one upstream, and
-- the requests that share it. A request is a task; each of its steps is one access of the shared
-- state, and the steps of all tasks interleave in any order.
pub mod Weights
pub mod Invariant
pub mod Schedule
pub mod Stranded
pub mod Crowded
pub mod Manager
use service_proxy.Dial.Types.{Response, UpstreamError}
use service_proxy.Shared.Result.{Result, ok, err}
use service_proxy.Shared.Text.{Text}
use service_proxy.Shared.{
  ℕ, suc, ◌+◌, ltb, Option, none, some, List, [], ◌∷◌, length, get_elem?, set, replicate,
  if◌then◌else◌, ◌≡◌, wrapping_add, wrapping_sub,
}

-- `struct Pool`. A connection is named by the number of its dial. `notifies` counts the calls of
-- `notify_one`, and `wakes` the waits that have ended; `notify` itself is tokio's.
pub record Pool : Type 0 where
  pub addr : Text
  pub max_size : ℕ
  pub idle : List ℕ
  pub outstanding : ℕ
  pub notifies : ℕ
  pub wakes : ℕ
  pub opened : ℕ

-- `Pool::new`
unfoldable pub new : Text → ℕ → Pool
new addr max_size = record {
  addr = addr;
  max_size = max_size;
  idle = [];
  outstanding = 0;
  notifies = 0;
  wakes = 0;
  opened = 0;
}

-- Where a task of `forward_pooled` stands.
pub data Task : Type 0 where
  looking : Task  -- head of the loop in `get`, before the lock
  counting : Task  -- before `outstanding.fetch_add`
  dialing : Task  -- in `dial`
  undoing : UpstreamError → Task  -- `dial` failed; before `fetch_sub`
  backing_off : Task  -- over the limit; before `fetch_sub`
  waiting : Task  -- in `notify.notified()`
  holding : ℕ → Task  -- `get` has returned; in `forward`
  putting : ℕ → Response → Task  -- in `put(conn, true)`, before the lock
  dropping : UpstreamError → Task  -- in `put(conn, false)`, after `drop(conn)`
  overflowing : Response → Task  -- `idle` was full; after `drop(conn)`
  notifying : Result UpstreamError Response → Task  -- before `notify.notify_one()`
  finished : Result UpstreamError Response → Task  -- `forward_pooled` has returned

-- What the outside world decides: how a dial and a forward end, and that a wait ends.
pub data Event : Type 0 where
  go : Event
  dialed : Event
  dial_failed : UpstreamError → Event
  answered : Response → Event
  broken : UpstreamError → Event
  woken : Event

abbrev pub sub_outstanding : Pool → Pool
sub_outstanding p = record p { outstanding = wrapping_sub p.outstanding 1 }

-- The lock and `idle.pop()` of `get`. The head of the list is the end of the vector.
unfoldable pub pop_idle : Pool → List ℕ → Pool × Task
pop_idle p [] = (p, counting)
pop_idle p (conn ∷ rest) = (record p { idle = rest }, holding conn)

-- `outstanding.fetch_add(1)` and the test of what it returns.
unfoldable pub reserve : Pool → Pool × Task
reserve p = (
  record p { outstanding = wrapping_add p.outstanding 1 },
  if ltb p.outstanding p.max_size then dialing else backing_off,
)

-- A wait ends only by using up a call of `notify_one`.
unfoldable pub wake : Pool → Option (Pool × Task)
wake p = if ltb p.wakes p.notifies then some (record p { wakes = suc p.wakes }, looking) else none

-- The steps of `get`.
unfoldable pub get_step : Pool → Task → Event → Option (Pool × Task)
unfolding pop_idle reserve wake
get_step p looking go = some (pop_idle p p.idle)
get_step p counting go = some (reserve p)
get_step p dialing dialed = some (record p { opened = suc p.opened }, holding p.opened)
get_step p dialing (dial_failed e) = some (p, undoing e)
get_step p (undoing e) go = some (sub_outstanding p, finished (err e))
get_step p backing_off go = some (sub_outstanding p, waiting)
get_step p waiting woken = wake p
get_step p _ _ = none

-- `put(conn, true)` up to the release of the lock.
unfoldable pub put_idle : Pool → ℕ → Response → Pool × Task
put_idle p conn resp =
    if ltb (length p.idle) p.max_size
    then (record p { idle = conn ∷ p.idle }, notifying (ok resp))
    else (p, overflowing resp)

-- The steps of `put`.
unfoldable pub put_step : Pool → Task → Event → Option (Pool × Task)
unfolding put_idle
put_step p (putting conn resp) go = some (put_idle p conn resp)
put_step p (dropping e) go = some (sub_outstanding p, notifying (err e))
put_step p (overflowing resp) go = some (sub_outstanding p, notifying (ok resp))
put_step p (notifying r) go = some (record p { notifies = suc p.notifies }, finished r)
put_step p _ _ = none

-- The steps of `forward_pooled`: those of `get`, the end of `forward`, and those of `put`.
unfoldable pub forward_step : Pool → Task → Event → Option (Pool × Task)
unfolding get_step put_step
forward_step p (holding conn) (answered resp) = some (p, putting conn resp)
forward_step p (holding conn) (broken e) = some (p, dropping e)
forward_step p (putting conn resp) e = put_step p (putting conn resp) e
forward_step p (dropping f) e = put_step p (dropping f) e
forward_step p (overflowing resp) e = put_step p (overflowing resp) e
forward_step p (notifying r) e = put_step p (notifying r) e
forward_step p t e = get_step p t e

pub record System : Type 0 where
  pub pool : Pool
  pub tasks : List Task

abbrev pub init : Text → ℕ → ℕ → System
init addr max_size n = record { pool = new addr max_size; tasks = replicate n looking }

-- One task makes one step.
pub data Step (s : System) : System → Type 0 where
  moves :
      (i : ℕ) (e : Event) {t t' : Task} {p : Pool}
      → get_elem? s.tasks i ≡ some t
      → forward_step s.pool t e ≡ some (p, t')
      → Step s (record { pool = p; tasks = set s.tasks i t' })

pub data Reach (s : System) : System → Type 0 where
  here : Reach s s
  later : {t u : System} → Reach s t → Step t u → Reach s u
