-- ===== src/Tests/Pool.antt =====
-- Runs of upstream/pool.rs.
use service_proxy.Dial.Types.{Request, Response, UpstreamError, IoError, ErrorKind, io, parse}
use service_proxy.Dial.Types
use service_proxy.Pool
use service_proxy.Pool.Invariant.{Reach-bounded, Reach-single, Reach-overflowing}
use service_proxy.Pool.Crowded.{backing_off-strands}
use service_proxy.Pool.Manager
use service_proxy.Pool.Manager.{forward, pooled, configured, forward-new}
use service_proxy.Pool.Schedule.{play, play-Reach}
use service_proxy.Pool.Stranded.{AtRest, IsStuck, dial_failed-strands}
use service_proxy.Pool.Weights.{charge, live, owns}
use service_proxy.Pool.{
  Pool, Task, looking, dialing, waiting, finished, holding, overflowing, Event, go, broken, dialed,
  dial_failed, answered, broken, woken, System, init, Reach,
}
use service_proxy.Balancer.Kind.{lb_least_conn}
use service_proxy.Proxy.Routes.{forward-chosen}
use service_proxy.Tests.Balancer.{three, one_given-Reach}
use service_proxy.Tests.Net.{counting_rng}
use service_proxy.Tests.Proxy.{third_next}
use service_proxy.Shared.Result.{Result, ok, err}
use service_proxy.Shared.Text.{Text, codes}
use service_proxy.Shared.{
  ℕ, zero, suc, ◌+◌, ◌≤◌, ◌<◌, ◌≡◌, ◌≢◌, refl, ap, inl, some, List, [], ◌∷◌, get_elem?, total,
  arith,
}

abbrev upstream : Text
upstream = codes "a:1"

abbrev hello : Response
hello = record { status_code = 200; headers = []; body = 104 ∷ 105 ∷ [] }

abbrev timeout : UpstreamError
timeout = Types.dial_failed (record { kind = ErrorKind.timed_out; message = codes "dial timeout" })

-- Three tasks and a pool of one: the first dials and gets an answer, the others wait.
abbrev busy_schedule : List (ℕ × Event)
busy_schedule =
    (0, go) ∷ (0, go) ∷ (1, go) ∷ (1, go) ∷ (0, dialed) ∷ (1, go) ∷ (0, answered hello) ∷ []

abbrev busy_pool : Pool
busy_pool = record {
  addr = upstream;
  max_size = 1;
  idle = [];
  outstanding = 1;
  notifies = 0;
  wakes = 0;
  opened = 1;
}

abbrev busy_state : System
busy_state = record { pool = busy_pool; tasks = Pool.putting 0 hello ∷ waiting ∷ looking ∷ [] }

busy_state-Reach : Reach (init upstream 1 3) busy_state
unfolding play Pool.forward_step Pool.new
busy_state-Reach = play-Reach (init upstream 1 3) busy_state busy_schedule refl

Reach-bounded_example :
    (1 ≡ 0 + total charge busy_state.tasks) × (0 + total live busy_state.tasks ≤ 1)
Reach-bounded_example = Reach-bounded upstream 1 3 (omega arith) busy_state-Reach

Reach-single_example :
    (0 + total (owns 0) busy_state.tasks ≤ 1) × (1 ≤ 0 → 0 + total (owns 0) busy_state.tasks ≡ 0)
Reach-single_example = Reach-single upstream 1 3 0 (omega arith) busy_state-Reach

Reach-overflowing_example : get_elem? busy_state.tasks 0 ≢ some (overflowing hello)
Reach-overflowing_example = Reach-overflowing upstream 1 3 0 hello (omega arith) busy_state-Reach

-- Two tasks and a pool of one: the first is in its dial, the second waits.
abbrev dialing_state : System
dialing_state = record { pool = record busy_pool { opened = 0 }; tasks = dialing ∷ waiting ∷ [] }

dialing_state-Reach : Reach (init upstream 1 2) dialing_state
unfolding play Pool.forward_step Pool.new
dialing_state-Reach =
    play-Reach (init upstream 1 2) dialing_state
      ((0, go) ∷ (0, go) ∷ (1, go) ∷ (1, go) ∷ (1, go) ∷ []) refl

dialing_state-rest :
    (k : ℕ) (t : Task) → 0 ≢ k → get_elem? dialing_state.tasks k ≡ some t → AtRest t
dialing_state-rest zero t other at = absurd (other refl)
dialing_state-rest (suc zero) t other at = inl cc
dialing_state-rest (suc (suc k)) t other at = absurd cc

dial_failed-strands_example :
    (u : System) × Reach dialing_state u
    × (get_elem? u.tasks 0 ≡ some (finished (err timeout)))
    × (get_elem? u.tasks 1 ≡ some waiting)
    × (u.pool.outstanding < u.pool.max_size)
    × IsStuck u
dial_failed-strands_example =
    dial_failed-strands upstream 1 2 0 1 timeout (omega arith) dialing_state-Reach refl refl
      dialing_state-rest refl

abbrev request : Request
request = record {
  method = codes "GET";
  path = codes "/";
  host = codes "a";
  headers = [];
  body = [];
}

-- A network on which every dial fails and every pool answers.
abbrev by_dial : Text → Request → Result UpstreamError Response
by_dial addr req = err timeout

abbrev by_pool : Pool → Request → Result UpstreamError Response
by_pool p req = ok hello

forward-chosen_example :
    forward by_dial by_pool (pooled (Manager.new three 4)) upstream request
    ≡ by_pool (Pool.new upstream 4) request
forward-chosen_example =
    forward-chosen counting_rng three lb_least_conn 0 4 by_dial by_pool upstream 0 request
      one_given-Reach (ap (λ p. p.1) third_next)

-- The first of three tasks has dropped the only connection, and the third counts as well.
abbrev crowded_state : System
crowded_state = record {
  pool = record busy_pool { outstanding = 2 };
  tasks = Pool.dropping timeout ∷ waiting ∷ Pool.backing_off ∷ [];
}

crowded_state-Reach : Reach (init upstream 1 3) crowded_state
unfolding play Pool.forward_step Pool.new
crowded_state-Reach =
    play-Reach (init upstream 1 3) crowded_state
      ((0, go)
        ∷ (0, go)
        ∷ (0, dialed)
        ∷ (1, go)
        ∷ (1, go)
        ∷ (1, go)
        ∷ (2, go)
        ∷ (2, go)
        ∷ (0, broken timeout)
        ∷ [])
      refl

backing_off-strands_example :
    (u : System) × Reach crowded_state u
    × (u.tasks ≡ finished (err timeout) ∷ waiting ∷ waiting ∷ [])
    × (u.pool.outstanding ≡ 0)
    × IsStuck u
backing_off-strands_example = backing_off-strands upstream timeout crowded_state-Reach refl refl
