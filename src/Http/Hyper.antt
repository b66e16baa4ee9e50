-- ===== src/Http/Hyper.antt =====
-- `handle_hyper_request` of proxy_http.rs, the handler behind HTTP/2. Whether the crate http builds a
-- response with a status and headers is an argument.
use service_proxy.Balancer.Kind
use service_proxy.Balancer.Kind.Tracking.{System, Reach, start, Counting}
use service_proxy.Balancer.Kind.{SelectorKind}
use service_proxy.Balancer.Rng.{Rng}
use service_proxy.Config.{unwrap_or}
use service_proxy.Dial.Types.{Headers, push_header, Request, Response, UpstreamError}
use service_proxy.Dial.Wire.{is_framing}
use service_proxy.Proxy.{choose_upstream, give_back}
use service_proxy.Proxy.InFlight.{inflight_of, restored, returns}
use service_proxy.Shared.Result.{Result, ok, err}
use service_proxy.Shared.Strings.Utf8.{from_utf8_lossy}
use service_proxy.Shared.Strings.{to_ascii_lowercase, as_bytes}
use service_proxy.Shared.Text.{Text, codes}
use service_proxy.Shared.{
  ℕ, ◌^◌, ◌≤◌, ◌<◌, ◌≡◌, refl, Bool, Option, some, List, [], ◌∷◌, ◌++◌, length, if◌then◌else◌, Op,
  pure, panic, ◌>>=◌, ◌>>◌, inl, inr, Bool-cases,
}

-- What hyper hands over: the parts of the request, and how the collection of its body ends.
pub record HyperRequest : Type 0 where
  pub method : Text
  pub path_and_query : Option Text
  pub path : Text
  pub headers : List (Text × List ℕ)
  pub body : Result Text (List ℕ)

pub record HyperResponse : Type 0 where
  pub status : ℕ
  pub headers : List (Text × Text)
  pub body : List ℕ

-- The loop over the headers of the request.
unfoldable pub collect_headers : List (Text × List ℕ) → Headers → Headers
unfolding from_utf8_lossy push_header
collect_headers [] acc = acc
collect_headers ((k, v) ∷ hs) acc = collect_headers hs (push_header k (from_utf8_lossy v) acc)

-- The loops over the headers of the response.
abbrev pub header_values : Text → List Text → List (Text × Text)
header_values k [] = []
header_values k (v ∷ vs) = (k, v) ∷ header_values k vs

unfoldable pub passed_headers : Headers → List (Text × Text)
unfolding to_ascii_lowercase
passed_headers [] = []
passed_headers ((k, vs) ∷ hs) =
    let rest = passed_headers hs in
    if is_framing (to_ascii_lowercase k) then rest else header_values k vs ++ rest

unfoldable pub upstream_request : HyperRequest → Text → List ℕ → Request
unfolding collect_headers
upstream_request req addr body = record {
  method = req.method;
  path = unwrap_or req.path_and_query req.path;
  host = addr;
  headers = collect_headers req.headers [];
  body = body;
}

abbrev pub plain : ℕ → Text → HyperResponse
plain status body = record { status = status; headers = []; body = as_bytes body }

module _ (builds : ℕ → List (Text × Text) → Bool) where
  -- `hyper_from_upstream`: the `unwrap` panics where the builder refuses.
  unfoldable pub hyper_from_upstream : {S : Type 0} → Response → Op S HyperResponse
  unfolding passed_headers
  hyper_from_upstream resp =
      let headers = passed_headers resp.headers in
      if builds resp.status_code headers
      then pure (record { status = resp.status_code; headers = headers; body = resp.body })
      else panic

  -- The last `match` of `handle_hyper_request`
  unfoldable pub hyper_reply : {S : Type 0} → Result UpstreamError Response → Op S HyperResponse
  unfolding hyper_from_upstream
  hyper_reply (ok resp) = hyper_from_upstream resp
  hyper_reply (err e) = pure (plain 502 (codes "bad gateway"))

  -- `handle_hyper_request`
  unfoldable pub handle_hyper_request :
      (r : Rng)
      → (Text → Request → Result UpstreamError Response)
      → HyperRequest
      → Op (SelectorKind × r.State) HyperResponse
  unfolding upstream_request give_back hyper_reply
  handle_hyper_request r forward req = elim req.body [
    | err e ↦ pure (plain 400 (codes "failed to read body"))
    | ok body ↦ do
      (addr, tok) ← choose_upstream r
      let result = forward addr (upstream_request req addr body)
      give_back r tok
      hyper_reply result
  ]

  hyper_reply-state :
      {S : Type 0} (result : Result UpstreamError Response) (s : S)
      → hyper_reply result s ≡ (s, (hyper_reply result s).1)
  unfolding hyper_reply hyper_from_upstream
  hyper_reply-state (err e) s = refl
  hyper_reply-state (ok resp) s =
      elim (Bool-cases (builds resp.status_code (passed_headers resp.headers))) [
        | inl good ↦ rw good refl
        | inr bad ↦ rw bad refl
      ]

  -- `handle_hyper_request` with a selector that counts, in any state that is reached from its start:
  -- a request whose body cannot be read is answered with status 400 and leaves the selector alone;
  -- otherwise, once `next` has chosen an upstream, the answer is that of the forward, and the
  -- in-flight counts are as it found them, even where the builder refuses the response and the task
  -- panics. It holds for at least one upstream and at most 2 ^ 31.
  pub handle_hyper_request-inflight :
      (r : Rng) (addrs : List Text) (strategy : Text) (g : r.State) {s : System r}
      (forward : Text → Request → Result UpstreamError Response) (req : HyperRequest)
      → Counting strategy
      → 0 < length addrs
      → length addrs ≤ 2 ^ 31
      → Reach r (start r addrs strategy g) s
      → {k : SelectorKind} {g' : r.State} (addr : Text) (tok : ℕ)
      → Kind.next r (s.kind, s.gen) ≡ ((k, g'), some (addr, tok))
      → ((e : Text)
          → req.body ≡ err e
          → handle_hyper_request r forward req (s.kind, s.gen)
            ≡ ((s.kind, s.gen), some (plain 400 (codes "failed to read body"))))
        × ((body : List ℕ)
            → req.body ≡ ok body
            → (u : SelectorKind) × (handle_hyper_request r forward req (s.kind, s.gen) ≡ (
              (u, g'),
              (hyper_reply {S = SelectorKind × r.State}
                  (forward addr (upstream_request req addr body))
                  (u, g')).1,
            ))
              × (inflight_of u ≡ inflight_of s.kind))
  unfolding handle_hyper_request give_back
  handle_hyper_request-inflight r addrs strategy g {s} forward req counting pos small reach {k} {g'}
        addr tok chosen =
      (
        λ e failed. rw (failed, handle_hyper_request),
        λ body collected. (
          (Kind.release tok k).0,
          rw (collected, handle_hyper_request)
              (rw chosen (
                rw (returns r addrs strategy g counting pos small reach addr tok chosen) (
                  hyper_reply-state (forward addr (upstream_request req addr body))
                    ((Kind.release tok k).0, g')))),
          restored r addrs strategy g counting pos small reach addr tok chosen,
        ),
      )
