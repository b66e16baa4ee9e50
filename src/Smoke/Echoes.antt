-- ===== src/Smoke/Echoes.antt =====
-- The smoke client of crates/quic-smoke-client against `handle_quic_stream` of quic_proxy/mod.rs.
use service_proxy.Balancer.Kind
use service_proxy.Balancer.Kind.{SelectorKind}
use service_proxy.Balancer.Rng.{Rng}
use service_proxy.Dial.Io.{Io}
use service_proxy.Dial.Types.{Request, Response, UpstreamError}
use service_proxy.Framing.{to_be_bytes, from_be_bytes, read_frame, write_frame}
use service_proxy.Framing.RoundTrip.{read_frame-lem, write_frame-sent}
use service_proxy.Proxy.{StreamError, echo_request, give_back, quic_reply, handle_quic_stream}
use service_proxy.Shared.Result.{Result, ok, Result-cases}
use service_proxy.Shared.Strings.Utf8.{from_utf8_lossy}
use service_proxy.Shared.Text.{Text}
use service_proxy.Shared.{
  ℕ, ◌%◌, ◌^◌, ◌<◌, ◌≡◌, refl, sym, ap, ◌∙◌, inl, inr, some, List, [], ◌++◌, length, arith,
  append-nil, Option-cases, subst, pure, ◌>>◌, then_pure-value,
}
use service_proxy.Smoke.{send_payload, receive_body}

-- What a stream has been given: `write_all` adds its bytes, and `flush` and `finish` none.
module _ (net : Io) (finish : net.Conn → Result StreamError net.Conn) (sent : net.Conn → List ℕ)
    (write_all-sent : (bs : List ℕ) (w w' : net.Conn)
      → net.write_all bs w ≡ ok w'
      → sent w' ≡ sent w ++ bs)
    (flush-sent : (w w' : net.Conn) → net.flush w ≡ ok w' → sent w' ≡ sent w)
    (finish-sent : (w w' : net.Conn) → finish w ≡ ok w' → sent w' ≡ sent w) where
  send_payload-sent :
      (payload : List ℕ) (w w' : net.Conn)
      → send_payload net finish payload w ≡ ok w'
      → sent w ≡ []
      → sent w' ≡ to_be_bytes (length payload % 2 ^ 32) ++ payload
  unfolding send_payload
  send_payload-sent payload w w' e fresh =
      elim (Result-cases (net.write_all (to_be_bytes (length payload % 2 ^ 32)) w)) [
        | inr (x, bad) ↦ absurd (ground (arith, bad, e))
        | inl (w1, e1) ↦ elim (Result-cases (net.write_all payload w1)) [
          | inr (x, bad) ↦ absurd (ground (arith, e1, bad, e))
          | inl (w2, e2) ↦
              finish-sent w2 w' (ground (arith, e1, e2, e))
              ∙ write_all-sent payload w1 w2 e2
              ∙ ap (λ s. s ++ payload)
                  (write_all-sent (to_be_bytes (length payload % 2 ^ 32)) w w1 e1
                    ∙ ap (λ s. s ++ to_be_bytes (length payload % 2 ^ 32)) fresh)
        ]
      ]

  reply-sent :
      (resp : Response) (w w' : net.Conn)
      → quic_reply net finish w (ok resp) ≡ ok w'
      → sent w ≡ []
      → sent w' ≡ to_be_bytes (length resp.body % 2 ^ 32) ++ resp.body
  unfolding quic_reply
  reply-sent resp w w' e fresh = elim (Result-cases (write_frame net resp.body w)) [
    | inr (x, bad) ↦ absurd (ground (arith, bad, e))
    | inl (w1, e1) ↦
        finish-sent w1 w' (ground (arith, e1, e))
        ∙ write_frame-sent net sent write_all-sent flush-sent resp.body w w1 e1
        ∙ ap (λ s. s ++ to_be_bytes (length resp.body % 2 ^ 32) ++ resp.body) fresh
  ]

  -- The client prints the body of a frame that arrives.
  receive_body-lem :
      (body : List ℕ) (r : net.Reader)
      → length body < 2 ^ 32
      → net.pending r ≡ to_be_bytes (length body % 2 ^ 32) ++ body
      → receive_body net r ≡ ok (from_utf8_lossy body)
  unfolding receive_body read_frame
  receive_body-lem body r small arrives =
      let (r', e, _) =
        read_frame-lem net body [] r small
          (arrives ∙ ap (λ s. to_be_bytes (length body % 2 ^ 32) ++ s) (sym (append-nil body))) in
      elim (Result-cases (net.read_exact 4 r)) [
        | inr (x, bad) ↦ absurd (ground (arith, bad, e))
        | inl ((len, r1), e1) ↦ elim (Result-cases (net.read_exact (from_be_bytes len) r1)) [
          | inr (x, bad) ↦ absurd (ground (arith, e1, bad, e))
          | inl ((got, r2), e2) ↦
              let same : got ≡ body = ground (arith, e1, e2, e) in rw (e1, e2, same) refl
        ]
      ]

  -- The smoke client through the proxy: where its payload is shorter than 2 ^ 32 bytes and has been
  -- sent, the proxy reads what was sent and ends well, every forward of that payload succeeds with a
  -- body shorter than 2 ^ 32 bytes, and the client reads what the proxy has written, the client
  -- prints the body of the answer of the upstream that `next` chose, read as text.
  pub receive_body-echoed :
      (r : Rng) (forward : Text → Request → Result UpstreamError Response)
      (answer : Text → Response) (payload : List ℕ) (w w' : net.Conn) (recv : net.Reader)
      (send send' : net.Conn) (client : net.Reader) (q q' : SelectorKind × r.State)
      → length payload < 2 ^ 32
      → sent w ≡ []
      → send_payload net finish payload w ≡ ok w'
      → net.pending recv ≡ sent w'
      → sent send ≡ []
      → ((addr : Text) → forward addr (echo_request addr payload) ≡ ok (answer addr))
      → ((addr : Text) → length (answer addr).body < 2 ^ 32)
      → handle_quic_stream r forward net finish send recv q ≡ (q', some (ok send'))
      → net.pending client ≡ sent send'
      → (addr : Text) × (tok : ℕ) × ((Kind.next r q).1 ≡ some (addr, tok))
        × (receive_body net client ≡ ok (from_utf8_lossy (answer addr).body))
  unfolding handle_quic_stream
  receive_body-echoed r forward answer payload w w' recv send send' client q q' small fresh sends
        arrives unwritten answers short served comes =
      let (recv', framed, _) = read_frame-lem net payload [] recv small (
        arrives
        ∙ send_payload-sent payload w w' sends fresh
        ∙ ap (λ s. to_be_bytes (length payload % 2 ^ 32) ++ s) (sym (append-nil payload))) in
      elim (Option-cases (Kind.next r q).1) [
        | inl panicked ↦ absurd (ground (arith, framed, panicked, served))
        | inr ((addr, tok), picked) ↦
            let next : Kind.next r q ≡ ((Kind.next r q).0, some (addr, tok)) =
              ap (λ out. ((Kind.next r q).0, out)) picked in
            let ran : handle_quic_stream r forward net finish send recv q
                ≡ (give_back r tok
                      >> pure
                          (quic_reply net finish send (forward addr (echo_request addr payload))))
                    (Kind.next r q).0 =
              rw (framed, handle_quic_stream) (rw next refl) in
            let replied : quic_reply net finish send (forward addr (echo_request addr payload))
                ≡ ok send' =
              then_pure-value (give_back r tok)
                (quic_reply net finish send (forward addr (echo_request addr payload))) (ok send')
                (Kind.next r q).0 q' (sym ran ∙ served) in
            (
              addr,
              tok,
              picked,
              receive_body-lem (answer addr).body client (short addr) (
                  comes
                  ∙ reply-sent (answer addr) send send'
                      (subst (λ result. quic_reply net finish send result ≡ ok send') (answers addr)
                        replied)
                      unwritten),
            )
      ]
