-- ===== src/Http3.antt =====
-- `handle_http3_request` of crates/service-proxy/src/quic_proxy/mod.rs. The request stream of the
-- crate h3 is an argument, and so is what the crate http's builder says
-- to a status and headers.
pub mod InFlight
use service_proxy.Balancer.Kind.{SelectorKind}
use service_proxy.Balancer.Rng.{Rng}
use service_proxy.Config.{unwrap_or}
use service_proxy.Dial.Types.{Request, Response, UpstreamError}
use service_proxy.Http.Hyper.{collect_headers, passed_headers}
use service_proxy.Proxy.{choose_upstream, give_back}
use service_proxy.Shared.Result
use service_proxy.Shared.Result.{Result, ok, err}
use service_proxy.Shared.Strings.{as_bytes}
use service_proxy.Shared.Text.{Text, codes}
use service_proxy.Shared.{
  ℕ, zero, suc, ◌<◌, ◌≡◌, Bool, Option, none, some, List, [], ◌∷◌, ◌++◌, if◌then◌else◌, Op, pure,
  ◌>>=◌, ◌>>◌,
}

-- `h3::server::RequestStream`. An error is its message. A client sends finitely many chunks.
pub record RequestStream : Type 1 where
  pub Stream : Type 0
  pub recv_data : Stream → Result Text (Option (List ℕ) × Stream)
  pub send_response : ℕ → List (Text × Text) → Stream → Result Text Stream
  pub send_data : List ℕ → Stream → Result Text Stream
  pub finish : Stream → Result Text Stream
  pub chunks : Stream → ℕ
  pub recv_data-less :
      (s s' : Stream) (chunk : List ℕ) → recv_data s ≡ ok (some chunk, s') → chunks s' < chunks s

-- What `resolve_request` hands over, without the body.
pub record Http3Request : Type 0 where
  pub method : Text
  pub path_and_query : Option Text
  pub path : Text
  pub headers : List (Text × List ℕ)

unfoldable pub http3_upstream_request : Http3Request → Text → List ℕ → Request
unfolding collect_headers
http3_upstream_request req addr body = record {
  method = req.method;
  path = unwrap_or req.path_and_query req.path;
  host = addr;
  headers = collect_headers req.headers [];
  body = body;
}

module _ (h3 : RequestStream) (builds : ℕ → List (Text × Text) → Result Text (Unit {0})) where
  open h3 use {Stream, recv_data, send_response, send_data, finish, chunks}

  -- The loop over `recv_data`; `none` means that the fuel ran out.
  unfoldable pub recv_body : ℕ → List ℕ → Stream → Option (Result Text (List ℕ × Stream))
  recv_body zero body s = none
  recv_body (suc fuel) body s = elim (recv_data s) [
    | err e ↦ some (err e)
    | ok (none, s') ↦ some (ok (body, s'))
    | ok (some chunk, s') ↦ recv_body fuel (body ++ chunk) s'
  ]

  -- The builder, `send_response`, `send_data` and `finish`, each with `?`.
  unfoldable pub answer : ℕ → List (Text × Text) → List ℕ → Stream → Result Text Stream
  answer status headers body s = Result.◌>>=◌ (builds status headers) (λ built.
      Result.◌>>=◌ (send_response status headers s) (λ s'. Result.◌>>=◌ (send_data body s') finish))

  -- The last `match` of `handle_http3_request`
  unfoldable pub http3_reply : Stream → Result UpstreamError Response → Result Text Stream
  unfolding answer passed_headers
  http3_reply s (ok resp) = answer resp.status_code (passed_headers resp.headers) resp.body s
  http3_reply s (err e) = answer 502 [] (as_bytes (codes "bad gateway")) s

  -- How `handle_http3_request` ends: `none` where the fuel ran out.
  unfoldable pub handle_http3_request :
      (r : Rng)
      → (Text → Request → Result UpstreamError Response)
      → Http3Request
      → Stream
      → Op (SelectorKind × r.State) (Option (Result Text Stream))
  unfolding recv_body http3_upstream_request give_back http3_reply
  handle_http3_request r forward req s = elim (recv_body (suc (chunks s)) [] s) [
    | none ↦ pure none
    | some (err e) ↦ pure (some (err e))
    | some (ok (body, s')) ↦ do
      (addr, tok) ← choose_upstream r
      let result = forward addr (http3_upstream_request req addr body)
      give_back r tok
      pure (some (http3_reply s' result))
  ]
