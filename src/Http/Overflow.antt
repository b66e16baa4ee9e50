-- ===== src/Http/Overflow.antt =====
-- A Content-Length that no vector can hold: `vec![0u8; content_length - body.len()]` in
-- `parse_request` of proxy_http.rs panics.
use service_proxy.Balancer.Kind.{SelectorKind}
use service_proxy.Balancer.Rng.{Rng}
use service_proxy.Dial.Io.{Io}
use service_proxy.Dial.Types.{Request, Response, UpstreamError}
use service_proxy.Http.Reads.{read_head-lem, take-append, drop-append}
use service_proxy.Http.Ends.{find_header_end-pos}
use service_proxy.Http.Said.{said_length, add_fields-length}
use service_proxy.Http.{
  find_header_end, Head, complete, add_fields, no_fields, Stream, read_content, parse_request,
  read_http11_request, handle_conn,
}
use service_proxy.Shared.Call.{overflowed}
use service_proxy.Shared.Result.{Result, ok}
use service_proxy.Shared.Text.{Text}
use service_proxy.Shared.{
  ℕ, suc, ◌+◌, ◌-◌, ◌*◌, ◌^◌, ◌≤◌, ◌≡◌, refl, sym, ap, ◌∙◌, ltb, true, false, Option, none, some,
  List, [], ◌++◌, length, length-append, take, drop, arith,
}

module _ (net : Io) (stream : Stream net) (httparse : List ℕ → Head)
    (reads : (room : ℕ) (c : net.Conn)
      → (xs : List ℕ) × (c' : net.Conn) × (stream.read room c ≡ ok (xs, c')))
    (quiet : (c : net.Conn) → stream.waits c ≡ false) where
  open net use {Conn}
  open stream use {unread}

  read_content-overflows :
      (fuel n : ℕ) (body : List ℕ) (c : Conn)
      → 2 ^ 63 + length body ≤ n
      → read_content net stream httparse (suc fuel) n body c ≡ overflowed
  unfolding read_content
  read_content-overflows fuel n body c h =
      let short : ltb (length body) n ≡ true = ground (arith, h) in
      let large : ltb (n - length body) (2 ^ 63) ≡ false = ground (arith, h) in
      rw (short, large, read_content)

  parse_request-overflows :
      (buf : List ℕ) (k : ℕ) (c : Conn) (method path : Option Text) (headers : List (Text × List ℕ))
      → httparse (take k buf) ≡ complete method path headers
      → 2 ^ 63 + length (drop k buf) ≤ (add_fields headers no_fields).content_length
      → parse_request net stream httparse buf k c ≡ overflowed
  unfolding parse_request
  parse_request-overflows buf k c method path headers parsed large =
      rw (parsed, parse_request)
        (rw (
          read_content-overflows (length (unread c)) (add_fields headers no_fields).content_length
            (drop k buf) c large))

  -- A client stops `read_http11_request` by a Content-Length that no vector can hold, in a head that
  -- httparse accepts and that ends at `k`, at most 2 ^ 20: where the last one is at least 2 ^ 63 more
  -- than the number of bytes that come after the head, the read panics, however the bytes are cut into
  -- reads that neither fail nor wait for ever. Then `handle_conn` does not come back: it chooses no
  -- upstream, leaves the selector alone and writes no answer.
  pub read_http11_request-overflows :
      (c : Conn) (k : ℕ) (method path : Option Text) (headers : List (Text × List ℕ))
      → find_header_end (unread c) ≡ some k
      → k ≤ 1024 * 1024
      → httparse (take k (unread c)) ≡ complete method path headers
      → 2 ^ 63 + length (drop k (unread c)) ≤ said_length headers
      → (read_http11_request net stream httparse c ≡ overflowed)
        × ((r : Rng) (forward : Text → Request → Result UpstreamError Response)
              (s : SelectorKind × r.State)
            → handle_conn net stream httparse r forward c s ≡ (s, none))
  unfolding read_http11_request handle_conn
  read_http11_request-overflows c k method path headers at_k small parsed large =
      let (buf, c1, whole, long, runs) =
        read_head-lem net stream httparse reads quiet (suc (length (unread c))) k [] c at_k small
          (find_header_end-pos (unread c) k at_k) (omega arith) in
      let head : take k buf ≡ take k (unread c) =
        sym (take-append k buf (unread c1) long) ∙ ap (take k) whole in
      let tail : drop k buf ++ unread c1 ≡ drop k (unread c) =
        sym (drop-append k buf (unread c1) long) ∙ ap (drop k) whole in
      let panics : read_http11_request net stream httparse c ≡ overflowed =
        runs
        ∙ parse_request-overflows buf k c1 method path headers (ap httparse head ∙ parsed) (
            omega (
              arith,
              ap length tail,
              length-append (drop k buf) (unread c1),
              add_fields-length headers no_fields refl,
              large,
            )) in
      (panics, λ r forward s. rw (panics, handle_conn))
