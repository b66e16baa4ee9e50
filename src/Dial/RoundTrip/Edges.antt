-- ===== src/Dial/RoundTrip/Edges.antt =====
-- Responses that `read_response` of upstream/dial.rs does not read as their peer means them: one that is
-- cut off in its headers, and one whose length no vector can have.
use service_proxy.Dial.Io.{Io}
use service_proxy.Dial.RoundTrip.Cut.{
  content_length, status_line, decimal-IsValue, content_length-IsName, parse_status-line,
}
use service_proxy.Dial.RoundTrip.Lines.{line_of, read_headers-end}
use service_proxy.Dial.RoundTrip.Loop.{
  CleanHeaders, Goes-headers, Goes-line, Goes-trans, Goes-to, with_length,
}
use service_proxy.Dial.RoundTrip.Maps.{DistinctKeys, Separate-nil, push_header-new, kept}
use service_proxy.Dial.RoundTrip.Whole.{
  chars, sets_length, content_length-Fresh, read_response-step,
}
use service_proxy.Dial.Types.{Headers, Request}
use service_proxy.Dial.Wire.{
  header_lines, is_framing, crlf, read_headers, read_body, read_rest, read_response, write_request,
  dial, connected, forward, forward_http,
}
use service_proxy.Shared.Call.{yields, overflowed}
use service_proxy.Shared.Result.{ok}
use service_proxy.Shared.Strings.{trim_end_by, as_bytes, decimal}
use service_proxy.Shared.{
  ℕ, zero, suc, ◌^◌, ◌≤◌, ◌<◌, ◌≡◌, refl, sym, ap, ◌∙◌, false, none, some, List, [], ◌∷◌, ◌++◌,
  append_assoc, append-nil, arith, length,
}

module _ (net : Io) where
  open net use {Conn, Reader, pending, waits, waits-line, read_line, read_line-lem}

  -- The status line is read, and what follows it is left.
  after_status :
      (code : ℕ) (b : Reader) (rest : List ℕ)
      → code < 2 ^ 16
      → pending b ≡ status_line code ++ crlf ++ rest
      → (b1 : Reader) × (pending b1 ≡ rest)
        × (read_response net b ≡ read_rest net (suc (length (pending b1))) code b1)
  after_status code b rest small e =
      let cut : pending b ≡ (status_line code ++ 13 ∷ []) ++ 10 ∷ rest =
        e
        ∙ append_assoc (status_line code) crlf rest
        ∙ sym (append_assoc (status_line code) (13 ∷ []) (10 ∷ rest)) in
      let (b1, read, left) = read_line-lem b (status_line code ++ 13 ∷ []) rest (chars code) cut in
      let raw : read_line b ≡ ok (status_line code ++ crlf, b1) =
        read ∙ ap (λ s. ok (s, b1)) (append_assoc (status_line code) (13 ∷ []) (10 ∷ [])) in
      (
        b1,
        left,
        read_response-step net b b1 (status_line code ++ crlf) code
            (waits-line b (status_line code ++ 13 ∷ []) rest cut) raw refl
            (parse_status-line code small),
      )

  read_rest-closed :
      (code fuel f : ℕ) (hs : Headers) (b c c' : Reader)
      → read_headers net fuel (with_length none []) b
        ≡ read_headers net (suc f) (with_length none hs) c
      → waits c ≡ false
      → read_line c ≡ ok ([], c')
      → read_rest net fuel code b
        ≡ yields (ok (record { status_code = code; headers = hs; body = [] }, c'))
  unfolding read_rest read_body read_headers trim_end_by
  read_rest-closed code fuel f hs b c c' runs heard ended = rw runs ground (arith, heard, ended)

  read_rest-overflows :
      (code fuel n : ℕ) (hs : Headers) (b c : Reader)
      → read_headers net fuel (with_length none []) b ≡ yields (ok (with_length (some n) hs, c))
      → 2 ^ 63 ≤ n
      → read_rest net fuel code b ≡ overflowed
  unfolding read_rest read_body
  read_rest-overflows code fuel n hs b c runs large = ground (arith, runs, large)

  -- A response that is cut off in its headers, at the end of a line and before its Content-Length, where
  -- the peer closes, is taken for a whole one: it has the headers that came, without those that
  -- `write_response` does not write, and an empty body. It holds for a status code below 2 ^ 16 and for
  -- headers as in the round trip, with keys that differ.
  pub read_response-cut_off :
      (code : ℕ) (hs : Headers) (b : Reader)
      → ((c : Reader)
          → pending c ≡ []
          → (waits c ≡ false) × (c' : Reader) × (read_line c ≡ ok ([], c')))
      → CleanHeaders hs
      → DistinctKeys hs
      → code < 2 ^ 16
      → pending b ≡ status_line code ++ crlf ++ header_lines is_framing hs
      → (b' : Reader) × (read_response net b
          ≡ yields (ok (record { status_code = code; headers = kept hs; body = [] }, b')))
  read_response-cut_off code hs b closes clean distinct small e =
      let (b1, left, status) = after_status code b (header_lines is_framing hs) small e in
      let loop =
        Goes-headers net hs clean distinct (suc (length (pending b1))) [] none b1 []
          (Separate-nil hs) (left ∙ sym (append-nil (header_lines is_framing hs))) (omega arith) in
      let (heard, c', ended) = closes loop.reader loop.left in
      (
        c',
        status
            ∙ finish (suc (length (pending b1))) b1 loop.fuel_left loop.reader c' loop.enough
                loop.runs heard ended,
      )
    where
      finish :
          (fuel : ℕ) (b1 : Reader) (f : ℕ) (c c' : Reader)
          → 0 < f
          → read_headers net fuel (with_length none []) b1
            ≡ read_headers net f (with_length none (kept hs)) c
          → waits c ≡ false
          → read_line c ≡ ok ([], c')
          → read_rest net fuel code b1
            ≡ yields (ok (record { status_code = code; headers = kept hs; body = [] }, c'))
      finish fuel b1 zero c c' pos runs heard ended = absurd (omega arith)
      finish fuel b1 (suc f) c c' pos runs heard ended =
          read_rest-closed code fuel f (kept hs) b1 c c' runs heard ended

  -- The bytes of a response whose last header announces `n` bytes.
  abbrev pub announcing : (code n : ℕ) → Headers → List ℕ → List ℕ
  announcing code n hs rest =
      status_line code
      ++ crlf
      ++ (header_lines is_framing hs
          ++ (as_bytes (line_of content_length (decimal n) ++ crlf) ++ (crlf ++ rest)))

  -- A response that announces from 2 ^ 63 to 2 ^ 64 - 1 bytes is not read.
  read_response-overflows :
      (code n : ℕ) (hs : Headers) (b : Reader) (rest : List ℕ)
      → CleanHeaders hs
      → DistinctKeys hs
      → code < 2 ^ 16
      → 2 ^ 63 ≤ n
      → n < 2 ^ 64
      → pending b
        ≡ status_line code
          ++ crlf
          ++ (header_lines is_framing hs
              ++ (as_bytes (line_of content_length (decimal n) ++ crlf) ++ (crlf ++ rest)))
      → read_response net b ≡ overflowed
  read_response-overflows code n hs b rest clean distinct small large fits e =
      let last : List ℕ = as_bytes (line_of content_length (decimal n) ++ crlf) in
      let (b1, left, status) =
        after_status code b (header_lines is_framing hs ++ (last ++ (crlf ++ rest))) small e in
      let loop =
        Goes-trans net
          (Goes-headers net hs clean distinct (suc (length (pending b1))) [] none b1
            (last ++ (crlf ++ rest)) (Separate-nil hs) left (omega arith))
          (λ f1 b2 e2 h2.
            Goes-to net
              (ap (with_length (some n))
                (push_header-new content_length (decimal n) (kept hs) (content_length-Fresh hs)))
              (Goes-line net content_length-IsName (decimal-IsValue n) f1
                (with_length none (kept hs)) (some n) b2 (crlf ++ rest) (sets_length n none fits) e2
                h2)) in
      status
      ∙ finish (suc (length (pending b1))) b1 loop.fuel_left loop.reader loop.left loop.enough
          loop.runs
    where
      finish :
          (fuel : ℕ) (b1 : Reader) (f : ℕ) (c : Reader)
          → pending c ≡ crlf ++ rest
          → length (crlf ++ rest) < f
          → read_headers net fuel (with_length none []) b1
            ≡ read_headers net f
                (with_length (some n) (kept hs ++ (content_length, decimal n ∷ []) ∷ []))
                c
          → read_rest net fuel code b1 ≡ overflowed
      finish fuel b1 zero c left enough runs = elim enough [ ]
      finish fuel b1 (suc f) c left enough runs =
          let (c', _, ends) =
            read_headers-end net f
              (with_length (some n) (kept hs ++ (content_length, decimal n ∷ []) ∷ [])) c rest
              left in
          read_rest-overflows code fuel n (kept hs ++ (content_length, decimal n ∷ []) ∷ []) b1 c'
            (runs ∙ ends) large

  -- A peer makes a forward panic by a Content-Length that no vector can have: once the request is
  -- written, a response whose headers end with such a length, from 2 ^ 63 to 2 ^ 64 - 1, is not read,
  -- whatever follows it, and neither `forward` nor `forward_http` comes back with a result. It holds for
  -- a status code below 2 ^ 16 and for headers as in the round trip, with keys that differ.
  pub forward-overflows :
      (req : Request) (conn conn' : Conn) (code n : ℕ) (hs : Headers) (rest : List ℕ)
      → CleanHeaders hs
      → DistinctKeys hs
      → code < 2 ^ 16
      → 2 ^ 63 ≤ n
      → n < 2 ^ 64
      → write_request net req conn ≡ ok conn'
      → pending (net.buffered conn') ≡ announcing code n hs rest
      → (forward net req conn ≡ overflowed) × (forward_http net (connected conn) req ≡ overflowed)
  unfolding forward forward_http dial
  forward-overflows req conn conn' code n hs rest clean distinct small large fits written sends =
      let stops =
        read_response-overflows code n hs (net.buffered conn') rest clean distinct small large fits
          sends in
      (rw (written, stops, forward), rw (written, stops, forward, forward_http))
