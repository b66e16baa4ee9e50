-- ===== src/Proxy.antt =====
-- The handlers that take a request from a client, choose an upstream, forward the request and
-- answer: crates/service-proxy/src/grpc_proxy.rs and the stream handler of quic_proxy/mod.rs. A
-- handler is given `forward`, the function `ForwarderKind::forward` over the network.
pub mod InFlight
pub mod Routes
use service_proxy.Balancer.Kind
use service_proxy.Balancer.Kind.{SelectorKind, keep_draw}
use service_proxy.Balancer.Rng.{Rng}
use service_proxy.Dial.Io.{Io}
use service_proxy.Dial.Types.{Headers, Request, Response, IoError, UpstreamError, display}
use service_proxy.Framing.{read_frame, write_frame}
use service_proxy.Shared.Result.{Result, ok, err, map_err}
use service_proxy.Shared.Result
use service_proxy.Shared.Text.{Text, codes, ◌=?◌}
use service_proxy.Shared.{
  ℕ, Option, none, some, List, [], ◌∷◌, ◌++◌, if◌then◌else◌, Op, pure, ◌>>=◌, ◌>>◌,
}

-- The request that both handlers send upstream.
unfoldable pub echo_request : Text → List ℕ → Request
echo_request addr payload = record {
  method = codes "POST";
  path = codes "/echo";
  host = addr;
  headers = (codes "Content-Type", codes "application/octet-stream" ∷ []) ∷ [];
  body = payload;
}

-- `HashMap::get`
unfoldable pub get_header : Text → Headers → Option (List Text)
get_header name [] = none
get_header name ((k, vs) ∷ hs) = if k =? name then some vs else get_header name hs

-- The values of `X-Upstream-Id`, or else of `X-Upstream-ID`.
abbrev pub or_else {ℓ} : {A : Type ℓ} → Option A → Option A → Option A
or_else none b = b
or_else (some a) b = some a

abbrev pub first_or_empty : Option (List Text) → Text
first_or_empty (some (v ∷ vs)) = v
first_or_empty _ = []

unfoldable pub upstream_id : Headers → Text
unfolding get_header
upstream_id headers = first_or_empty (
    or_else (get_header (codes "X-Upstream-Id") headers)
      (get_header (codes "X-Upstream-ID") headers))

pub record EchoResponse : Type 0 where
  pub payload : List ℕ
  pub upstream_id : Text

-- The last `match` of `GrpcProxy::echo`; an error is the message of `Status::unavailable`.
unfoldable pub echo_reply : Text → Result UpstreamError Response → Result Text EchoResponse
unfolding upstream_id display
echo_reply addr (ok resp) =
    ok (record { payload = resp.body; upstream_id = upstream_id resp.headers })
echo_reply addr (err e) = err (codes "forward to " ++ addr ++ codes ": " ++ display e)

-- How a stream of quinn fails: reading and writing, or in `finish`.
pub data StreamError : Type 0 where
  io_failed : IoError → StreamError
  closed_stream : StreamError

-- The last `match` of `handle_quic_stream`: an upstream error leaves the stream as it is.
unfoldable pub quic_reply :
    (net : Io)
    → (net.Conn → Result StreamError net.Conn)
    → net.Conn
    → Result UpstreamError Response
    → Result StreamError net.Conn
quic_reply net finish send (ok resp) =
    Result.◌>>=◌ (map_err io_failed (write_frame net resp.body send)) finish
quic_reply net finish send (err e) = ok send

module _ (r : Rng) where
  -- `selector.next()` and `selector.release(tok)`
  abbrev pub choose_upstream : Op (SelectorKind × r.State) (Text × ℕ)
  choose_upstream = Kind.next r

  unfoldable pub give_back : ℕ → Op (SelectorKind × r.State) (Unit {0})
  give_back tok (k, g) = keep_draw g (Kind.release tok k)

  module _ (forward : Text → Request → Result UpstreamError Response) where
    -- `GrpcProxy::echo`
    unfoldable pub echo : List ℕ → Op (SelectorKind × r.State) (Result Text EchoResponse)
    unfolding give_back echo_reply echo_request
    echo payload = do
      (addr, tok) ← choose_upstream
      let result = forward addr (echo_request addr payload)
      give_back tok
      pure (echo_reply addr result)

    module _ (net : Io) (finish : net.Conn → Result StreamError net.Conn) where
      -- `handle_quic_stream`
      unfoldable pub handle_quic_stream :
          net.Conn → net.Reader → Op (SelectorKind × r.State) (Result StreamError net.Conn)
      unfolding give_back quic_reply echo_request
      handle_quic_stream send recv = elim (read_frame net recv) [
        | err e ↦ pure (err (io_failed e))
        | ok (payload, recv') ↦ do
          (addr, tok) ← choose_upstream
          let result = forward addr (echo_request addr payload)
          give_back tok
          pure (quic_reply net finish send result)
      ]
