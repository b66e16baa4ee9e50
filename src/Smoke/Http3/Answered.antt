-- ===== src/Smoke/Http3/Answered.antt =====
-- The smoke client of crates/http3-smoke-client against `handle_http3_request` of quic_proxy/mod.rs.
use service_proxy.Balancer.Kind
use service_proxy.Balancer.Kind.{SelectorKind}
use service_proxy.Balancer.Rng.{Rng}
use service_proxy.Dial.Types.{Request, Response, UpstreamError}
use service_proxy.Http3.{
  RequestStream, Http3Request, http3_upstream_request, recv_body, http3_reply, handle_http3_request,
}
use service_proxy.Proxy.{give_back}
use service_proxy.Shared.Result.{Result, ok, Result-cases}
use service_proxy.Shared.Text.{Text}
use service_proxy.Shared.{
  ℕ, suc, ◌≡◌, ◌≢◌, refl, sym, ap, ◌∙◌, inl, inr, none, some, List, [], arith, Option-cases, subst,
  pure, ◌>>◌, then_pure-value,
}
use service_proxy.Smoke.Http3.{ClientStream, post, shown, print_response}
use service_proxy.Smoke.Http3.Streams.{
  Served, Carried, expected, recv_body-lem, http3_reply-sent, post-sent, print_response-total,
  print_response-lem,
}

-- A handler that ends well has read the body, chosen an upstream and written its answer.
module _ (h3 : RequestStream) (builds : ℕ → List (Text × Text) → Result Text (Unit {0})) (r : Rng)
    (forward : Text → Request → Result UpstreamError Response) (req : Http3Request)
    (s s' : h3.Stream) (q q' : SelectorKind × r.State)
    (ran : handle_http3_request h3 builds r forward req s q ≡ (q', some (some (ok s')))) where
  reads :
      (body : List ℕ) × (s1 : h3.Stream) × (recv_body h3 builds (suc (h3.chunks s)) [] s
        ≡ some (ok (body, s1)))
  unfolding handle_http3_request
  reads = elim (Option-cases (recv_body h3 builds (suc (h3.chunks s)) [] s)) [
    | inl spent ↦ absurd (ground (arith, spent, ran))
    | inr (out, got) ↦ elim (Result-cases out) [
      | inr (e, failed) ↦ absurd (ground (arith, got, failed, ran))
      | inl ((body, s1), read) ↦ (body, s1, got ∙ ap some read)
    ]
  ]

  replies :
      (body : List ℕ) (s1 : h3.Stream)
      → recv_body h3 builds (suc (h3.chunks s)) [] s ≡ some (ok (body, s1))
      → (addr : Text) × (tok : ℕ) × ((Kind.next r q).1 ≡ some (addr, tok))
        × (http3_reply h3 builds s1 (forward addr (http3_upstream_request req addr body)) ≡ ok s')
  unfolding handle_http3_request
  replies body s1 read = elim (Option-cases (Kind.next r q).1) [
    | inl panicked ↦ absurd (ground (arith, read, panicked, ran))
    | inr ((addr, tok), picked) ↦
        let reply =
          http3_reply h3 builds s1 (forward addr (http3_upstream_request req addr body)) in
        let next : Kind.next r q ≡ ((Kind.next r q).0, some (addr, tok)) =
          ap (λ out. ((Kind.next r q).0, out)) picked in
        let went : handle_http3_request h3 builds r forward req s q
            ≡ (give_back r tok >> pure (some reply)) (Kind.next r q).0 =
          rw (read, handle_http3_request) (rw next refl) in
        let last : some reply ≡ some (ok s') =
          then_pure-value (give_back r tok) (some reply) (some (ok s')) (Kind.next r q).0 q'
            (sym went ∙ ran) in
        (addr, tok, picked, ground (arith, last))
  ]

module _ (h3 : RequestStream) (builds : ℕ → List (Text × Text) → Result Text (Unit {0}))
    (served : Served h3) (client : ClientStream) (show_status : ℕ → Text)
    (carried : Carried client) where
  -- The smoke client for HTTP/3 through the proxy: where its payload has been sent, the proxy reads
  -- what was sent and ends well, and the client reads what the proxy has written, `next` has chosen an
  -- upstream, and the client reads to the end and prints, unless a read fails, the status and the body
  -- of that upstream's answer to the payload, or 502 and `bad gateway` where the forward has failed.
  pub print_response-answered :
      (r : Rng) (forward : Text → Request → Result UpstreamError Response) (req : Http3Request)
      (payload : List ℕ) (c c' c'' : client.Stream) (s s' : h3.Stream)
      (q q' : SelectorKind × r.State)
      → carried.sent c ≡ []
      → post client show_status payload c ≡ ok c'
      → served.incoming s ≡ carried.sent c'
      → served.sent s ≡ []
      → handle_http3_request h3 builds r forward req s q ≡ (q', some (some (ok s')))
      → carried.status c'' ≡ served.told s'
      → carried.incoming c'' ≡ served.sent s'
      → (addr : Text) × (tok : ℕ) × ((Kind.next r q).1 ≡ some (addr, tok))
        × (print_response client show_status c'' ≢ none)
        × ((out : Text)
            → print_response client show_status c'' ≡ some (ok out)
            → let (status, body) =
                expected (forward addr (http3_upstream_request req addr payload)) in
              out ≡ shown client show_status status body)
  print_response-answered r forward req payload c c' c'' s s' q q' fresh posts arrives unwritten ran
        told comes =
      let (body, s1, read) = reads h3 builds r forward req s s' q q' ran in
      let (all, kept) = recv_body-lem h3 builds served (suc (h3.chunks s)) [] body s s1 read in
      let same : body ≡ payload =
        all ∙ arrives ∙ post-sent client show_status carried payload c c' posts fresh in
      let (addr, tok, picked, wrote) = replies h3 builds r forward req s s' q q' ran body s1 read in
      let result = forward addr (http3_upstream_request req addr body) in
      let (says, gives) = http3_reply-sent h3 builds served result s1 s' wrote (kept ∙ unwritten) in
      (
        addr,
        tok,
        picked,
        print_response-total client show_status carried c'',
        λ out printed.
            subst
              (λ b.
                let (status, text) = expected (forward addr (http3_upstream_request req addr b)) in
                out ≡ shown client show_status status text)
              same
              (print_response-lem client show_status carried c'' (expected result).0
                (expected result).1 out (told ∙ says) (comes ∙ gives) printed),
      )
