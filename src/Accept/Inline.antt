-- ===== src/Accept/Inline.antt =====
-- `serve_http` of main.rs in the mode tcp-sync: connections one after the other.
use service_proxy.Accept.{Listening, also_spawned, serve_conn, serve_http}
use service_proxy.Balancer.Counters.{Counters}
use service_proxy.Balancer.Kind
use service_proxy.Balancer.Kind.Tracking.{System, Reach}
use service_proxy.Balancer.Kind.{SelectorKind}
use service_proxy.Balancer.Rng.{Rng}
use service_proxy.Config.{tcp_goroutine}
use service_proxy.Dial.Io.{Io}
use service_proxy.Dial.Types.{Request, Response, UpstreamError}
use service_proxy.Http.{Head, Stream, Outcome}
use service_proxy.Shared.Result.{Result, ok, err}
use service_proxy.Shared.Text.{Text}
use service_proxy.Shared.{ℕ, ◌≡◌, refl, none, some, List, [], ◌∷◌, Op, Option}

module _ (net : Io) (stream : Stream net) (httparse : List ℕ → Head) (r : Rng)
    (forward : Text → Request → Result UpstreamError Response) (from : System r) where
  -- The selector is reached and no token is held.
  abbrev Quiet : SelectorKind × r.State → Type 0
  Quiet q = Reach r from (record { kind = q.0; gen = q.1; held = [] })

-- The clients that come before the first error of `accept`, and that error.
abbrev pub clients : {Conn : Type 0} → List (Result Text Conn) → List Conn
clients [] = []
clients (err e ∷ accepts) = []
clients (ok conn ∷ accepts) = conn ∷ clients accepts

abbrev pub failure : {Conn : Type 0} → List (Result Text Conn) → Option Text
failure [] = none
failure (err e ∷ accepts) = some e
failure (ok conn ∷ accepts) = failure accepts

module _ (net : Io) (stream : Stream net) (httparse : List ℕ → Head) (r : Rng)
    (forward : Text → Request → Result UpstreamError Response) where
  spawn-rest :
      (q : SelectorKind × r.State) (conn : net.Conn)
      (rest : Op (SelectorKind × r.State) (Listening (Outcome net stream httparse) net.Conn))
      (l : Listening (Outcome net stream httparse) net.Conn)
      → rest q ≡ (q, some l)
      → serve_conn net stream httparse r forward tcp_goroutine conn rest q
        ≡ (q, some (also_spawned conn l))
  spawn-rest q conn rest l e = rw e refl

  -- In the mode tcp-goroutine `serve_http` spawns a task for each client, in the order in which they
  -- come, up to the first error of `accept`, which ends it, and calls the selector never.
  pub serve_http-spawns :
      (accepts : List (Result Text net.Conn)) (q : SelectorKind × r.State)
      → serve_http net stream httparse r forward tcp_goroutine accepts q
        ≡ (q, some (record { handled = []; spawned = clients accepts; ended = failure accepts }))
  unfolding serve_http
  serve_http-spawns [] q = refl
  serve_http-spawns (err e ∷ accepts) q = refl
  serve_http-spawns (ok conn ∷ accepts) q =
      spawn-rest q conn (serve_http net stream httparse r forward tcp_goroutine accepts)
        (record { handled = []; spawned = clients accepts; ended = failure accepts })
        (serve_http-spawns accepts q)
