-- ===== src/Http/Chunks.antt =====
-- `read_http11_request` of proxy_http.rs on bytes that arrive in any number of reads.
use service_proxy.Dial.Io.{Io}
use service_proxy.Http.Ends.{find_header_end-pos}
use service_proxy.Http.{
  find_header_end, Head, complete, Fields, add_fields, no_fields, build_request, Stream,
  read_http11_request,
}
use service_proxy.Http.Said.{
  last_value, said_length, values_of, values_at, add_fields-host, add_fields-length,
  values_at-add_fields,
}
use service_proxy.Dial.Types.{Request}
use service_proxy.Shared.Call.{yields}
use service_proxy.Shared.Result.{ok}
use service_proxy.Shared.Text.{Text, codes}
use service_proxy.Config.{unwrap_or}
use service_proxy.Shared.{
  ℕ, suc, ◌*◌, ◌^◌, ◌≤◌, ◌<◌, ◌≡◌, refl, sym, ap, ◌∙◌, false, Option, some, List, [], ◌++◌, length,
  take, drop, arith,
}
use service_proxy.Http.Reads.{
  take-append, drop-append, parse_request-step, read_content-lem, read_head-lem,
}

-- Reads that do not fail, of a client that does not stall.
module _ (net : Io) (stream : Stream net) (httparse : List ℕ → Head)
    (reads : (room : ℕ) (c : net.Conn)
      → (xs : List ℕ) × (c' : net.Conn) × (stream.read room c ≡ ok (xs, c')))
    (quiet : (c : net.Conn) → stream.waits c ≡ false) where
  open net use {Conn}
  open stream use {unread}

  -- The request that is read, in terms of the loop over its fields.
  read_http11_request-built :
      (c : Conn) (k : ℕ) (method path : Option Text) (headers : List (Text × List ℕ))
      → find_header_end (unread c) ≡ some k
      → k ≤ 1024 * 1024
      → httparse (take k (unread c)) ≡ complete method path headers
      → said_length headers < 2 ^ 63
      → (c' : Conn) × (read_http11_request net stream httparse c
          ≡ yields (
              ok
                (build_request method path (add_fields headers no_fields) (drop k (unread c)), c')))
  unfolding read_http11_request build_request
  read_http11_request-built c k method path headers at_k small parsed bounded =
      let (buf, c1, whole, long, runs) =
        read_head-lem net stream httparse reads quiet (suc (length (unread c))) k [] c at_k small
          (find_header_end-pos (unread c) k at_k) (omega arith) in
      let f : Fields = add_fields headers no_fields in
      let head : take k buf ≡ take k (unread c) =
        sym (take-append k buf (unread c1) long) ∙ ap (take k) whole in
      let tail : drop k buf ++ unread c1 ≡ drop k (unread c) =
        sym (drop-append k buf (unread c1) long) ∙ ap (drop k) whole in
      let (body, c2, ends, same) =
        read_content-lem net stream httparse reads quiet (suc (length (unread c1))) f.content_length
          (drop k buf) c1 (omega arith) (omega (arith, add_fields-length headers no_fields refl)) in
      let cut : take f.content_length body ≡ take f.content_length (drop k (unread c)) =
        same ∙ ap (take f.content_length) tail in
      let step =
        parse_request-step net stream httparse reads quiet buf k c1 c2 method path headers body
          (ap httparse head ∙ parsed) ends in
      (
        c2,
        runs
            ∙ step
            ∙ ap
                (λ b. yields (
                  ok (
                    record {
                      method = unwrap_or method (codes "GET");
                      path = unwrap_or path (codes "/");
                      host = f.host;
                      headers = f.header_map;
                      body = b;
                    },
                    c2,
                  )))
                cut,
      )

  -- `read_http11_request` reads the same request however the bytes of the client are cut into reads,
  -- where no read fails or waits for ever: with the headers ending at `k`, at most 2 ^ 20, and accepted
  -- by httparse, and a last Content-Length below 2 ^ 63. The request has the method and the path of its
  -- head, or GET and `/`; its host is the value of the last Host, in whatever case that is written, or
  -- empty; its header map has under each name the values of the fields with that name, in their order;
  -- and its body is the first bytes after the headers, as many as the last Content-Length says, or as
  -- there are.
  pub read_http11_request-chunks :
      (c : Conn) (k : ℕ) (method path : Option Text) (headers : List (Text × List ℕ))
      → find_header_end (unread c) ≡ some k
      → k ≤ 1024 * 1024
      → httparse (take k (unread c)) ≡ complete method path headers
      → said_length headers < 2 ^ 63
      → (req : Request) × (c' : Conn) × (read_http11_request net stream httparse c
          ≡ yields (ok (req, c')))
        × (req.method ≡ unwrap_or method (codes "GET"))
        × (req.path ≡ unwrap_or path (codes "/"))
        × (req.host ≡ unwrap_or (last_value (codes "host") headers) [])
        × ((name : Text) → values_at name req.headers ≡ values_of name headers)
        × (req.body ≡ take (said_length headers) (drop k (unread c)))
  unfolding build_request
  read_http11_request-chunks c k method path headers at_k small parsed bounded =
      let (c', runs) =
        read_http11_request-built c k method path headers at_k small parsed bounded in
      (
        build_request method path (add_fields headers no_fields) (drop k (unread c)),
        c',
        runs,
        refl,
        refl,
        add_fields-host headers no_fields,
        (λ name. values_at-add_fields name headers no_fields),
        ap (λ n. take n (drop k (unread c))) (add_fields-length headers no_fields refl),
      )
