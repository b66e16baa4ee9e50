-- ===== src/Dial/RoundTrip/Whole.antt =====
-- `read_response` of upstream/dial.rs on the bytes that `write_response` sends.
use service_proxy.Dial.Io.{Io, LineChars}
use service_proxy.Dial.RoundTrip.Cut.{
  content_length, connection, status_line, decimal-IsValue, content_length-IsName,
  connection-IsName, close-IsValue, status-LineChars, parse_status-line, response-cut,
}
use service_proxy.Dial.RoundTrip.Lines.{line_of, LineChars-append, read_headers-end}
use service_proxy.Dial.RoundTrip.Loop.{
  CleanHeaders, Goes, Goes-headers, Goes-line, Goes-trans, Goes-to, with_length,
}
use service_proxy.Dial.RoundTrip.Maps.{
  Fresh, DistinctKeys, Separate-nil, push_header-new, kept, kept-Fresh, Fresh-snoc,
}
use service_proxy.Dial.Types.{Headers, Response}
use service_proxy.Dial.Wire.{
  response_bytes, header_lines, is_framing, crlf, read_headers, read_body, read_rest, read_response,
  parse_status,
}
use service_proxy.Shared.Result.{ok}
use service_proxy.Shared.Strings.Decimal.{parse_uint-decimal}
use service_proxy.Shared.Strings.{
  is_empty, as_bytes, decimal, parse_uint, to_ascii_lowercase, eq_ignore_ascii_case,
}
use service_proxy.Shared.Text.{Text, codes}
use service_proxy.Shared.Call.{yields}
use service_proxy.Shared.{
  ℕ, zero, suc, ◌^◌, ◌<◌, ◌≡◌, refl, ap, ◌∙◌, false, Option, none, some, List, [], ◌∷◌, ◌++◌,
  append_assoc, arith, length, if◌then◌else◌,
}

-- The headers that the reader finds.
abbrev pub received : Response → Headers
received resp =
    kept resp.headers
    ++ (content_length, decimal (length resp.body) ∷ []) ∷ (connection, codes "close" ∷ []) ∷ []

pub sets_length :
    (n : ℕ) (cl : Option ℕ)
    → n < 2 ^ 64
    → (if eq_ignore_ascii_case content_length (codes "content-length")
        then parse_uint (2 ^ 64) (decimal n)
        else cl)
      ≡ some n
unfolding eq_ignore_ascii_case
sets_length n cl h = parse_uint-decimal (2 ^ 64) n h

keeps_length :
    (cl : Option ℕ) (v : Text)
    → (if eq_ignore_ascii_case connection (codes "content-length")
        then parse_uint (2 ^ 64) v
        else cl)
      ≡ cl
unfolding eq_ignore_ascii_case
keeps_length cl v = refl

connection-Fresh :
    (hs : Headers) (v : Text) → Fresh connection (kept hs ++ (content_length, v ∷ []) ∷ [])
unfolding to_ascii_lowercase
connection-Fresh hs v =
    Fresh-snoc connection content_length (v ∷ []) (kept hs) (kept-Fresh connection hs refl) refl

pub content_length-Fresh : (hs : Headers) → Fresh content_length (kept hs)
unfolding to_ascii_lowercase
content_length-Fresh hs = kept-Fresh content_length hs refl

pub chars : (code : ℕ) → LineChars (status_line code ++ 13 ∷ [])
chars code = LineChars-append (status_line code) (13 ∷ []) (status-LineChars code) (omega arith)

regroup_rest :
    (s h c d body rest : List ℕ)
    → s ++ crlf ++ (h ++ (c ++ (d ++ (crlf ++ body)))) ++ rest
      ≡ s ++ 13 ∷ [] ++ 10 ∷ (h ++ (c ++ (d ++ (crlf ++ (body ++ rest)))))
regroup_rest s h c d body rest = simp append_assoc

module _ (net : Io) where
  open net use {
    waits, stalls, waits-line, stalls-exact, Reader, pending, read_line, read_line-lem, read_exact,
    read_exact-lem,
  }

  -- The header loop over all that `write_response` sends after the status line.
  all_headers :
      (resp : Response) (fuel : ℕ) (b : Reader) (rest : List ℕ)
      → CleanHeaders resp.headers
      → DistinctKeys resp.headers
      → length resp.body < 2 ^ 64
      → pending b
        ≡ header_lines is_framing resp.headers
          ++ (as_bytes (line_of content_length (decimal (length resp.body)) ++ crlf)
              ++ (as_bytes (line_of connection (codes "close") ++ crlf) ++ rest))
      → length (pending b) < fuel
      → Goes net fuel
          (with_length none [])
          b
          (with_length (some (length resp.body)) (received resp))
          rest
  all_headers resp fuel b rest clean distinct small e h =
      let n : Text = decimal (length resp.body) in
      let first : Headers = kept resp.headers ++ (content_length, n ∷ []) ∷ [] in
      Goes-trans net
        (Goes-headers net resp.headers clean distinct fuel [] none b _ (Separate-nil resp.headers) e
          h)
        (λ f1 b1 e1 h1.
          Goes-trans net
            (Goes-to net
              (ap (with_length (some (length resp.body))) (
                push_header-new content_length n (kept resp.headers)
                  (content_length-Fresh resp.headers)))
              (Goes-line net content_length-IsName (decimal-IsValue (length resp.body)) f1
                (with_length none (kept resp.headers)) (some (length resp.body)) b1 _
                (sets_length (length resp.body) none small) e1 h1))
            (λ f2 b2 e2 h2.
              Goes-to net
                (ap (with_length (some (length resp.body))) (
                  push_header-new connection (codes "close") first (connection-Fresh resp.headers n)
                  ∙ append_assoc (kept resp.headers) ((content_length, n ∷ []) ∷ [])
                      ((connection, codes "close" ∷ []) ∷ [])))
                (Goes-line net connection-IsName close-IsValue f2
                  (with_length (some (length resp.body)) first) (some (length resp.body)) b2 rest
                  (keeps_length (some (length resp.body)) (codes "close")) e2 h2)))

  read_rest-step :
      (code fuel : ℕ) (b b1 b2 : Reader) (hs : Headers) (n : ℕ) (body : List ℕ)
      → read_headers net fuel (with_length none []) b ≡ yields (ok (with_length (some n) hs, b1))
      → n < 2 ^ 63
      → stalls n b1 ≡ false
      → read_exact n b1 ≡ ok (body, b2)
      → read_rest net fuel code b
        ≡ yields (ok (record { status_code = code; headers = hs; body = body }, b2))
  unfolding read_rest read_body
  read_rest-step code fuel b b1 b2 hs n body e small heard read = ground arith

  pub read_response-step :
      (b b1 : Reader) (line : Text) (code : ℕ)
      → waits b ≡ false
      → read_line b ≡ ok (line, b1)
      → is_empty line ≡ false
      → parse_status line ≡ ok code
      → read_response net b ≡ read_rest net (suc (length (pending b1))) code b1
  unfolding read_response
  read_response-step b b1 line code heard read ne status = ground arith

  -- The empty line and the body.
  read_rest-body :
      (code fuel : ℕ) (hs : Headers) (body : List ℕ) (b : Reader) (rest : List ℕ)
      → length body < 2 ^ 63
      → Goes net fuel
          (with_length none [])
          b
          (with_length (some (length body)) hs)
          (crlf ++ (body ++ rest))
      → (b' : Reader) × (pending b' ≡ rest)
        × (read_rest net fuel code b
            ≡ yields (ok (record { status_code = code; headers = hs; body = body }, b')))
  unfolding read_rest read_body
  read_rest-body code fuel hs body b rest small g = finish g.fuel_left g.enough g.runs
    where
      finish :
          (f : ℕ)
          → length (crlf ++ (body ++ rest)) < f
          → read_headers net fuel (with_length none []) b
            ≡ read_headers net f (with_length (some (length body)) hs) g.reader
          → (b' : Reader) × (pending b' ≡ rest)
            × (read_rest net fuel code b
                ≡ yields (ok (record { status_code = code; headers = hs; body = body }, b')))
      finish zero h e = elim h [ ]
      finish (suc f) h e =
          let (b1, left1, ends) =
            read_headers-end net f (with_length (some (length body)) hs) g.reader (body ++ rest)
              g.left in
          let (b2, read, left2) = read_exact-lem b1 (length body) body rest refl left1 in
          (
            b2,
            left2,
            read_rest-step code fuel b b1 b2 hs (length body) body (e ∙ ends) small
                (stalls-exact b1 body rest left1) read,
          )

  -- What `write_response` sends is read back by `read_response`, whatever bytes follow it: the same
  -- status code and the same body, and the headers without those named Connection or Content-Length
  -- in any case and those without values, followed by the Content-Length and Connection lines that
  -- were written; the bytes that follow are left. It holds for header names that are not empty and
  -- have no white space and no colon, for values of one line with no white space at their ends, all
  -- ASCII, for keys that differ, a status code below 2 ^ 16 and a body shorter than 2 ^ 63.
  pub read_response-write_response :
      (resp : Response) (b : Reader) (rest : List ℕ)
      → CleanHeaders resp.headers
      → DistinctKeys resp.headers
      → resp.status_code < 2 ^ 16
      → length resp.body < 2 ^ 63
      → pending b ≡ response_bytes resp ++ rest
      → (b' : Reader) × (pending b' ≡ rest)
        × (read_response net b
            ≡ yields (
                ok (
                  record {
                    status_code = resp.status_code;
                    headers = received resp;
                    body = resp.body;
                  },
                  b',
                )))
  unfolding read_response
  read_response-write_response resp b rest clean distinct code small e =
      let status : Text = status_line resp.status_code in
      let lines : List ℕ = header_lines is_framing resp.headers in
      let len : List ℕ = as_bytes (line_of content_length (decimal (length resp.body)) ++ crlf) in
      let con : List ℕ = as_bytes (line_of connection (codes "close") ++ crlf) in
      let cut =
        e
        ∙ ap (λ s. s ++ rest) (response-cut resp)
        ∙ regroup_rest status lines len con resp.body rest in
      let (b1, read, left) = read_line-lem b (status ++ 13 ∷ []) _ (chars resp.status_code) cut in
      let raw : read_line b ≡ ok (status ++ crlf, b1) =
        read ∙ ap (λ s. ok (s, b1)) (append_assoc status (13 ∷ []) (10 ∷ [])) in
      let loop =
        all_headers resp (suc (length (pending b1))) b1 (crlf ++ (resp.body ++ rest)) clean distinct
          (omega arith) left (omega arith) in
      let (b2, left2, done) =
        read_rest-body resp.status_code _ (received resp) resp.body b1 rest small loop in
      (
        b2,
        left2,
        read_response-step b b1 (status ++ crlf) resp.status_code
              (waits-line b (status ++ 13 ∷ []) _ cut) raw refl
              (parse_status-line resp.status_code code)
            ∙ done,
      )
