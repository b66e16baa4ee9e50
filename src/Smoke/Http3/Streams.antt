-- ===== src/Smoke/Http3/Streams.antt =====
-- What the streams of HTTP/3 carry between crates/http3-smoke-client and quic_proxy/mod.rs.
use service_proxy.Dial.Types.{Response, UpstreamError}
use service_proxy.Http.Hyper.{passed_headers}
use service_proxy.Http3.{RequestStream, recv_body, answer, http3_reply}
use service_proxy.Shared.Result.{Result, ok, err, Result-cases}
use service_proxy.Shared.Strings.{as_bytes}
use service_proxy.Shared.Text.{Text, codes}
use service_proxy.Shared.{
  ℕ, zero, suc, ◌<◌, ◌≡◌, ◌≢◌, sym, ap, ◌∙◌, inl, inr, Option, none, some, List, [], ◌++◌,
  append-nil, append_assoc, arith, Option-cases,
}
use service_proxy.Smoke.Http3.{ClientStream, post, recv_chunks, shown, print_response}

-- What a stream of the server carries: the bytes that its client has sent and it has not read, the
-- status and the bytes that it has been given.
pub record Served (h3 : RequestStream) : Type 0 where
  pub incoming : h3.Stream → List ℕ
  pub told : h3.Stream → Option ℕ
  pub sent : h3.Stream → List ℕ
  pub recv_data-some :
      (s s' : h3.Stream) (chunk : List ℕ)
      → h3.recv_data s ≡ ok (some chunk, s')
      → incoming s ≡ chunk ++ incoming s'
  pub recv_data-none : (s s' : h3.Stream) → h3.recv_data s ≡ ok (none, s') → incoming s ≡ []
  pub recv_data-sent :
      (s s' : h3.Stream) (chunk : Option (List ℕ))
      → h3.recv_data s ≡ ok (chunk, s')
      → sent s' ≡ sent s
  pub send_response-told :
      (status : ℕ) (headers : List (Text × Text)) (s s' : h3.Stream)
      → h3.send_response status headers s ≡ ok s'
      → (told s' ≡ some status) × (sent s' ≡ sent s)
  pub send_data-sent :
      (body : List ℕ) (s s' : h3.Stream)
      → h3.send_data body s ≡ ok s'
      → (told s' ≡ told s) × (sent s' ≡ sent s ++ body)
  pub finish-sent :
      (s s' : h3.Stream) → h3.finish s ≡ ok s' → (told s' ≡ told s) × (sent s' ≡ sent s)

-- What a stream of the client carries.
pub record Carried (h3 : ClientStream) : Type 0 where
  pub incoming : h3.Stream → List ℕ
  pub status : h3.Stream → Option ℕ
  pub sent : h3.Stream → List ℕ
  pub send_data-sent :
      (body : List ℕ) (s s' : h3.Stream) → h3.send_data body s ≡ ok s' → sent s' ≡ sent s ++ body
  pub finish-sent : (s s' : h3.Stream) → h3.finish s ≡ ok s' → sent s' ≡ sent s
  pub recv_response-status :
      (s s' : h3.Stream) (code : ℕ)
      → h3.recv_response s ≡ ok (code, s')
      → (status s ≡ some code) × (incoming s ≡ incoming s')
  pub recv_data-some :
      (s s' : h3.Stream) (chunk : List ℕ)
      → h3.recv_data s ≡ ok (some chunk, s')
      → incoming s ≡ chunk ++ incoming s'
  pub recv_data-none : (s s' : h3.Stream) → h3.recv_data s ≡ ok (none, s') → incoming s ≡ []

-- What the proxy answers to how the forward ended.
abbrev pub expected : Result UpstreamError Response → ℕ × List ℕ
expected (ok resp) = (resp.status_code, resp.body)
expected (err e) = (502, as_bytes (codes "bad gateway"))

module _ (h3 : RequestStream) (builds : ℕ → List (Text × Text) → Result Text (Unit {0}))
    (served : Served h3) where
  -- The server reads what was sent.
  pub recv_body-lem :
      (fuel : ℕ) (before body : List ℕ) (s s' : h3.Stream)
      → recv_body h3 builds fuel before s ≡ some (ok (body, s'))
      → (body ≡ before ++ served.incoming s) × (served.sent s' ≡ served.sent s)
  unfolding recv_body
  recv_body-lem zero before body s s' h = absurd (cc)
  recv_body-lem (suc fuel) before body s s' h = elim (Result-cases (h3.recv_data s)) [
    | inr (e, failed) ↦ absurd (ground (arith, failed, h))
    | inl ((none, s1), e) ↦
        let same : before ≡ body = ground (arith, e, h) in
        let last : s1 ≡ s' = ground (arith, e, h) in
        (
          sym same
              ∙ sym (append-nil before)
              ∙ ap (λ bs. before ++ bs) (sym (served.recv_data-none s s1 e)),
          ap served.sent (sym last) ∙ served.recv_data-sent s s1 none e,
        )
    | inl ((some chunk, s1), e) ↦
        let (read, kept) = recv_body-lem fuel (before ++ chunk) body s1 s' (ground (arith, e, h)) in
        (
          read
              ∙ append_assoc before chunk (served.incoming s1)
              ∙ ap (λ bs. before ++ bs) (sym (served.recv_data-some s s1 chunk e)),
          kept ∙ served.recv_data-sent s s1 (some chunk) e,
        )
  ]

  answer-sent :
      (status : ℕ) (headers : List (Text × Text)) (body : List ℕ) (s s' : h3.Stream)
      → answer h3 builds status headers body s ≡ ok s'
      → served.sent s ≡ []
      → (served.told s' ≡ some status) × (served.sent s' ≡ body)
  unfolding answer
  answer-sent status headers body s s' h fresh = elim (Result-cases (builds status headers)) [
    | inr (e, bad) ↦ absurd (ground (arith, bad, h))
    | inl (tt, built) ↦ elim (Result-cases (h3.send_response status headers s)) [
      | inr (e, bad) ↦ absurd (ground (arith, built, bad, h))
      | inl (s1, e1) ↦ elim (Result-cases (h3.send_data body s1)) [
        | inr (e, bad) ↦ absurd (ground (arith, built, e1, bad, h))
        | inl (s2, e2) ↦
            let (told1, sent1) = served.send_response-told status headers s s1 e1 in
            let (told2, sent2) = served.send_data-sent body s1 s2 e2 in
            let (told3, sent3) = served.finish-sent s2 s' (ground (arith, built, e1, e2, h)) in
            (told3 ∙ told2 ∙ told1, sent3 ∙ sent2 ∙ ap (λ bs. bs ++ body) (sent1 ∙ fresh))
      ]
    ]
  ]

  pub http3_reply-sent :
      (result : Result UpstreamError Response) (s s' : h3.Stream)
      → http3_reply h3 builds s result ≡ ok s'
      → served.sent s ≡ []
      → (served.told s' ≡ some (expected result).0) × (served.sent s' ≡ (expected result).1)
  unfolding http3_reply
  http3_reply-sent (ok resp) s s' h fresh =
      answer-sent resp.status_code (passed_headers resp.headers) resp.body s s' h fresh
  http3_reply-sent (err e) s s' h fresh =
      answer-sent 502 [] (as_bytes (codes "bad gateway")) s s' h fresh

module _ (h3 : ClientStream) (show_status : ℕ → Text) (carried : Carried h3) where
  pub post-sent :
      (payload : List ℕ) (c c' : h3.Stream)
      → post h3 show_status payload c ≡ ok c'
      → carried.sent c ≡ []
      → carried.sent c' ≡ payload
  unfolding post
  post-sent payload c c' h fresh = elim (Result-cases (h3.send_data payload c)) [
    | inr (e, bad) ↦ absurd (ground (arith, bad, h))
    | inl (c1, e1) ↦
        carried.finish-sent c1 c' (ground (arith, e1, h))
        ∙ carried.send_data-sent payload c c1 e1
        ∙ ap (λ bs. bs ++ payload) fresh
  ]

  recv_chunks-lem :
      (fuel : ℕ) (before body : List ℕ) (c : h3.Stream)
      → recv_chunks h3 show_status fuel before c ≡ some (ok body)
      → body ≡ before ++ carried.incoming c
  unfolding recv_chunks
  recv_chunks-lem zero before body c h = absurd (cc)
  recv_chunks-lem (suc fuel) before body c h = elim (Result-cases (h3.recv_data c)) [
    | inr (e, failed) ↦ absurd (ground (arith, failed, h))
    | inl ((none, c1), e) ↦
        let same : before ≡ body = ground (arith, e, h) in
        sym same
        ∙ sym (append-nil before)
        ∙ ap (λ bs. before ++ bs) (sym (carried.recv_data-none c c1 e))
    | inl ((some chunk, c1), e) ↦
        recv_chunks-lem fuel (before ++ chunk) body c1 (ground (arith, e, h))
        ∙ append_assoc before chunk (carried.incoming c1)
        ∙ ap (λ bs. before ++ bs) (sym (carried.recv_data-some c c1 chunk e))
  ]

  recv_chunks-total :
      (fuel : ℕ) (before : List ℕ) (c : h3.Stream)
      → h3.chunks c < fuel
      → recv_chunks h3 show_status fuel before c ≢ none
  unfolding recv_chunks
  recv_chunks-total zero before c h = elim h [ ]
  recv_chunks-total (suc fuel) before c h = elim (Result-cases (h3.recv_data c)) [
    | inr (e, failed) ↦ ground arith
    | inl ((none, c1), e) ↦ ground arith
    | inl ((some chunk, c1), e) ↦
        let less = h3.recv_data-less c c1 chunk e in
        ground (arith, recv_chunks-total fuel (before ++ chunk) c1 (omega (arith, less)))
  ]

  -- The client reads to the end, and prints what has been sent to it.
  pub print_response-total : (c : h3.Stream) → print_response h3 show_status c ≢ none
  unfolding print_response
  print_response-total c = elim (Result-cases (h3.recv_response c)) [
    | inr (e, failed) ↦ ground arith
    | inl ((code, c1), e) ↦
        ground (arith, recv_chunks-total (suc (h3.chunks c1)) [] c1 (omega arith))
  ]

  pub print_response-lem :
      (c : h3.Stream) (code : ℕ) (body : List ℕ) (out : Text)
      → carried.status c ≡ some code
      → carried.incoming c ≡ body
      → print_response h3 show_status c ≡ some (ok out)
      → out ≡ shown h3 show_status code body
  unfolding print_response
  print_response-lem c code body out told comes h = elim (Result-cases (h3.recv_response c)) [
    | inr (e, failed) ↦ absurd (ground (arith, failed, h))
    | inl ((code', c1), e) ↦
        let (status, rest) = carried.recv_response-status c c1 code' e in
        elim (Option-cases (recv_chunks h3 show_status (suc (h3.chunks c1)) [] c1)) [
          | inl spent ↦ absurd (ground (arith, e, spent, h))
          | inr (read, got) ↦ elim (Result-cases read) [
            | inr (x, bad) ↦ absurd (ground (arith, e, got, bad, h))
            | inl (body', good) ↦
                let same : shown h3 show_status code' body' ≡ out =
                  ground (arith, e, got, good, h) in
                let code_is : code' ≡ code = ground (arith, status, told) in
                let body_is : body' ≡ body =
                  recv_chunks-lem (suc (h3.chunks c1)) [] body' c1 (got ∙ ap some good)
                  ∙ sym rest
                  ∙ comes in
                sym same
                ∙ ap (λ k. shown h3 show_status k body') code_is
                ∙ ap (shown h3 show_status code) body_is
          ]
        ]
  ]
