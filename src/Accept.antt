-- ===== src/Accept.antt =====
-- The loops that accept clients: serve_http, serve_http2 and serve_stats of
-- crates/service-proxy/src/main.rs, serve_pprof of pprof_server.rs, serve_tokio_metrics of
-- tokio_metrics_server.rs, and those of quic_proxy/mod.rs. What a loop is given is the list of what its
-- accepts bring, as far as they have; at the end of the list it waits for the next.
pub mod Inline
use service_proxy.Balancer.Kind.{SelectorKind}
use service_proxy.Balancer.Rng.{Rng}
use service_proxy.Config.{Mode, tcp_goroutine}
use service_proxy.Dial.Io.{Io}
use service_proxy.Dial.Types.{Request, Response, UpstreamError}
use service_proxy.Http.{Head, Stream, Outcome, handle_conn}
use service_proxy.Shared.Result.{Result, ok, err}
use service_proxy.Shared.Text.{Text}
use service_proxy.Shared.{ℕ, Option, none, some, List, [], ◌∷◌, Op, pure, ◌>>=◌, ◌>>◌}

-- How far a loop has come: how the connections that it handled itself ended, those for which it has
-- spawned a task, in order, and the error that has ended it.
pub record Listening (Outcome Conn : Type 0) : Type 0 where
  pub handled : List Outcome
  pub spawned : List Conn
  pub ended : Option Text

module _ {Outcome Conn : Type 0} where
  abbrev pub idle : Option Text → Listening Outcome Conn
  idle ended = record { handled = []; spawned = []; ended = ended }

  abbrev pub also_handled : Outcome → Listening Outcome Conn → Listening Outcome Conn
  also_handled out l = record l { handled = out ∷ l.handled }

  abbrev pub also_spawned : Conn → Listening Outcome Conn → Listening Outcome Conn
  also_spawned conn l = record l { spawned = conn ∷ l.spawned }

module _ (net : Io) (stream : Stream net) (httparse : List ℕ → Head) (r : Rng)
    (forward : Text → Request → Result UpstreamError Response) where
  -- What both modes do with a connection: `rest` is the loop after it.
  abbrev pub serve_conn :
      Mode
      → net.Conn
      → Op (SelectorKind × r.State) (Listening (Outcome net stream httparse) net.Conn)
      → Op (SelectorKind × r.State) (Listening (Outcome net stream httparse) net.Conn)
  serve_conn tcp_goroutine conn rest = do l ← rest; pure (also_spawned conn l)
  serve_conn mode conn rest = do
    out ← handle_conn net stream httparse r forward conn
    l ← rest
    pure (also_handled out l)

  -- `serve_http`
  unfoldable pub serve_http :
      Mode
      → List (Result Text net.Conn)
      → Op (SelectorKind × r.State) (Listening (Outcome net stream httparse) net.Conn)
  serve_http mode [] = pure (idle none)
  serve_http mode (err e ∷ accepts) = pure (idle (some e))
  serve_http mode (ok conn ∷ accepts) = serve_conn mode conn (serve_http mode accepts)

-- `serve_http2`: a task for each connection, up to the first error.
unfoldable pub serve_http2 : {Conn : Type 0} → List (Result Text Conn) → Listening (Unit {0}) Conn
serve_http2 [] = idle none
serve_http2 (err e ∷ accepts) = idle (some e)
serve_http2 (ok conn ∷ accepts) = also_spawned conn (serve_http2 accepts)

-- The loop of the endpoints for operators: a task for each connection, up to the first error.
unfoldable pub accept_clients :
    {Conn : Type 0} → List (Result Text Conn) → Listening (Unit {0}) Conn
accept_clients [] = idle none
accept_clients (err e ∷ accepts) = idle (some e)
accept_clients (ok conn ∷ accepts) = also_spawned conn (accept_clients accepts)

-- `serve_stats`, `serve_pprof` and `serve_tokio_metrics`, with how the address is bound.
unfoldable pub serve_stats :
    {Conn : Type 0} → Result Text (Unit {0}) → List (Result Text Conn) → Listening (Unit {0}) Conn
unfolding accept_clients
serve_stats (err e) accepts = idle (some e)
serve_stats (ok ln) accepts = accept_clients accepts

unfoldable pub serve_pprof :
    {Conn : Type 0} → Result Text (Unit {0}) → List (Result Text Conn) → Listening (Unit {0}) Conn
unfolding accept_clients
serve_pprof (err e) accepts = idle (some e)
serve_pprof (ok ln) accepts = accept_clients accepts

unfoldable pub serve_tokio_metrics :
    {Conn : Type 0} → Result Text (Unit {0}) → List (Result Text Conn) → Listening (Unit {0}) Conn
unfolding accept_clients
serve_tokio_metrics (err e) accepts = idle (some e)
serve_tokio_metrics (ok ln) accepts = accept_clients accepts

-- `handle_quic_conn`: a handler for each stream, up to the first error, which is dropped.
unfoldable pub handle_quic_conn : {Stream E : Type 0} → List (Result E Stream) → List Stream
handle_quic_conn [] = []
handle_quic_conn (err e ∷ streams) = []
handle_quic_conn (ok stream ∷ streams) = stream ∷ handle_quic_conn streams

-- The task that `serve_quic` spawns: the connection, unless its handshake fails.
abbrev pub quic_task : {Stream E F : Type 0} → Result F (List (Result E Stream)) → List Stream
quic_task (ok streams) = handle_quic_conn streams
quic_task (err e) = []

-- The loop of `serve_quic`: a task for each incoming connection until the endpoint is closed, which is
-- `none`, with the handlers that each has spawned.
unfoldable pub accept_quic :
    {Stream E F : Type 0} → List (Option (Result F (List (Result E Stream)))) → List (List Stream)
unfolding handle_quic_conn
accept_quic [] = []
accept_quic (none ∷ accepts) = []
accept_quic (some incoming ∷ accepts) = quic_task incoming ∷ accept_quic accepts

-- `serve_quic`, with how the endpoint is opened.
unfoldable pub serve_quic :
    {Stream E F G : Type 0}
    → Result G (Unit {0})
    → List (Option (Result F (List (Result E Stream))))
    → Result G (List (List Stream))
unfolding accept_quic
serve_quic (err e) accepts = err e
serve_quic (ok endpoint) accepts = ok (accept_quic accepts)

-- `handle_http3_conn`: the set-up of HTTP/3, then a task for each request that is accepted, up to the
-- end of the connection or its first error; a request that cannot be resolved has no handler.
abbrev pub resolved : {Req E : Type 0} → Result E Req → List Req → List Req
resolved (ok req) rest = req ∷ rest
resolved (err e) rest = rest

unfoldable pub accept_requests :
    {Req E F : Type 0} → List (Result F (Option (Result E Req))) → List Req
accept_requests [] = []
accept_requests (err e ∷ accepts) = []
accept_requests (ok none ∷ accepts) = []
accept_requests (ok (some resolver) ∷ accepts) = resolved resolver (accept_requests accepts)

unfoldable pub handle_http3_conn :
    {Req E F G : Type 0}
    → Result G (Unit {0})
    → List (Result F (Option (Result E Req)))
    → Result G (List Req)
unfolding accept_requests
handle_http3_conn (err e) accepts = err e
handle_http3_conn (ok u) accepts = ok (accept_requests accepts)

-- An HTTP/3 connection: how its set-up ends, and what it accepts.
abbrev pub Http3Conn : Type 0 → Type 0
Http3Conn Req = Result Text (Unit {0}) × List (Result Text (Option (Result Text Req)))

-- The task that `serve_http3` spawns.
abbrev pub requests_of : {Req : Type 0} → Result Text (List Req) → List Req
requests_of (ok reqs) = reqs
requests_of (err e) = []

unfoldable pub http3_task : {Req : Type 0} → Result Text (Http3Conn Req) → List Req
unfolding handle_http3_conn
http3_task (ok (set_up, accepts)) = requests_of (handle_http3_conn set_up accepts)
http3_task (err e) = []

-- The loop of `serve_http3`, and `serve_http3` with how the endpoint is opened.
unfoldable pub accept_http3 :
    {Req : Type 0} → List (Option (Result Text (Http3Conn Req))) → List (List Req)
unfolding http3_task
accept_http3 [] = []
accept_http3 (none ∷ accepts) = []
accept_http3 (some incoming ∷ accepts) = http3_task incoming ∷ accept_http3 accepts

unfoldable pub serve_http3 :
    {Req : Type 0}
    → Result Text (Unit {0})
    → List (Option (Result Text (Http3Conn Req)))
    → Result Text (List (List Req))
unfolding accept_http3
serve_http3 (err e) accepts = err e
serve_http3 (ok endpoint) accepts = ok (accept_http3 accepts)
