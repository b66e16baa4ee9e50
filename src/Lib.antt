-- ===== src/Lib.antt =====
-- service-proxy: a proxy that forwards the requests of its clients to several upstream servers.
-- The development models the Rust program under crates/service-proxy/src.
--
-- The parts and how they interact. A handler reads a request from a client, asks the selector for an
-- upstream, forwards the request to it, gives the selector its token back and answers. The selector
-- counts the requests in flight for each upstream. Forwarding dials a connection for each request, or
-- takes one from the pool of the upstream; both write and read HTTP/1.1 on it.
--   Balancer (upstream/balancer.rs): Counters, RoundRobin (Fixed, RoundRobin and CountingRoundRobin),
--     LeastConn, P2c and Kind (SelectorKind, new_selector). Each selector is a record with the fields
--     of the struct; `next`, `release` and `stats` are operations on it that may panic. A panic keeps
--     what was written before it. Races has the accesses of `pick`, `release` and `stats` one at a time.
--   Pool (upstream/pool.rs): Pool has the state of the struct and the steps of `get`, `put` and
--     `forward_pooled`; one step is one access of the shared state, and the steps of all tasks
--     interleave in any order (Step, Reach). Pool.Manager has Manager and ForwarderKind.
--   Dial (upstream/dial.rs): Types has Request, Response and UpstreamError, Wire the functions, and Io
--     what they use of a connection.
--   Http (proxy_http.rs): reading a request from a client, `handle_conn`, and in Hyper
--     `handle_hyper_request`. Relay is about a proxy behind another one.
--   Http3 (quic_proxy/mod.rs): `handle_http3_request`.
--   Config (config.rs), Framing (quic_proxy/framing.rs), Proxy (`echo` of grpc_proxy.rs and
--     `handle_quic_stream` of quic_proxy/mod.rs), Tls (quic_proxy/tls.rs), Admin (the service of
--     `serve_stats` in main.rs, and pprof_server.rs, whose `collect` is in Profile, and in Queue beside
--     other calls that want its lock), Metrics (tokio_metrics_server.rs).
--   Main (main.rs): `main` as a run that spawns services, in order, and ends with a server; Accept the
--     loops of `serve_http`, `serve_http2`, `serve_stats`, `serve_pprof`, `serve_tokio_metrics` and of
--     quic_proxy/mod.rs over what their accepts bring.
--   Workers (main.rs): `serve_pooled` and its workers as a step relation with labels. Line is its
--     specification, a line of connections that forgets who serves them; Refines is the refinement.
--   Handlers: the tasks that the loops spawn, side by side over one selector; a step is one call of the
--     selector.
--   Smoke (crates/quic-smoke-client): the client, against `handle_quic_stream`. Smoke.Http3
--     (crates/http3-smoke-client): the client, against `handle_http3_request`.
--   Shared: texts, machine integers, results, panics and lists, and what the program uses of Rust's
--     string functions. Tests: concrete runs.
--
-- What is assumed. `usize` has 64 bits, and the atomics wrap around at 2 ^ 64; an i64 or an i32 is
-- its two's complement pattern. The random numbers (Balancer.Rng) and the connections (Dial.Io)
-- are parameters: a draw lies in its range, an empty range panics, and reading a line or a number
-- of bytes takes them from those that the peer sends, or waits for ever, since the program sets no
-- time limit for a peer that stalls. How reading a request or a response goes on is a Call: it
-- comes back with a result, it panics where a vector is asked to hold 2 ^ 63 bytes or more, or it
-- waits for ever. JSON, the profiler, which does not start while it runs, the streams of QUIC and
-- HTTP/3, the header parser httparse and the response builder of the crate http are arguments. A
-- hash map is the list of its entries in the order of iteration.
--
-- Bounds. A call of the selector is one step, so that calls interleave between each other only,
-- but for Balancer.Races, where one access of a counter is one step. In the pool each wait uses up
-- one call of `notify_one`, which allows every run in which tokio's single stored permit is used.
-- The number of tasks is fixed in a run, and is arbitrary. The peer of a connection sends any
-- finite number of bytes before it closes or stalls. One that sends header lines for ever keeps
-- the header loop from ending, as one that stalls does: reading waits (Dial.Io). The header loop
-- has fuel for one round more than the connection has bytes, which is enough (Dial.Total) since
-- every round takes a line from it, and so have the loops that read a request (Http.Served). A
-- write to a peer that does not read is taken to end, and so is the reading of a frame of QUIC. In the handlers a forward is a function that
-- comes back; a token of one that does not is among those that are held (Balancer.Kind.Tracking).
-- The queue of `serve_pooled` is any channel that keeps the order and the bound that tokio
-- documents (Workers.Channel). After an accept has failed its workers go on until the runtime is
-- dropped, at any point of a run. Allocation failure is not modelled, and the cancellation of a
-- task between two awaits only in Admin.Queue.
--
-- What is not modelled: what hyper, tonic, quinn and h3 do with a connection that is handed to
-- them, logging, the smoke client for gRPC, the generated types of crates/proto, and the Go
-- implementation under go.
pub mod Shared
pub mod Workers
pub mod Tls
pub mod Main
pub mod Handlers
pub mod Smoke
pub mod Accept
pub mod Balancer
pub mod Dial
pub mod Pool
pub mod Config
pub mod Framing
pub mod Proxy
pub mod Http
pub mod Http3
pub mod Admin
pub mod Metrics
pub mod Tests
