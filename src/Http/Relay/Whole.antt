-- ===== src/Http/Relay/Whole.antt =====
-- A request that `write_request` writes, as `read_http11_request` reads it.
use service_proxy.Http.Relay.{
  value_fields, header_fields, host_fields, request_fields, field_line, start_line, request_head,
  PlainValues, PlainHeaders, IsPlain,
}
use service_proxy.Http.Relay.Bytes.{
  field_line-Plain, start_line-Plain, is_empty-append, Digits-Plain, request_bytes-head,
  Plain-Ascii, lossy-Ascii,
}
use service_proxy.Http.Relay.Parsed.{request_fields-both}
use service_proxy.Dial.Io.{Io}
use service_proxy.Dial.Types.{Headers, Request}
use service_proxy.Dial.Wire.{request_bytes, skipped_in_request, crlf}
use service_proxy.Http.Said.{said_length, values_of, values_at, add_fields-host, add_fields-length}
use service_proxy.Shared.Call.{yields}
use service_proxy.Http.Chunks.{read_http11_request-chunks}
use service_proxy.Http.Lines.{
  Plain, PlainLines, write_lines, find_header_end-lines, take-prefix, drop-prefix,
}
use service_proxy.Http.{find_header_end, Head, complete, no_fields, Stream, read_http11_request}
use service_proxy.Shared.Result.{ok}
use service_proxy.Shared.Strings.Decimal.{decimal-Digits}
use service_proxy.Shared.Strings.{is_empty, decimal, to_ascii_lowercase}
use service_proxy.Shared.Text.{Text, codes, ◌=?◌}
use service_proxy.Shared.{
  ℕ, ◌*◌, ◌^◌, ◌≤◌, ◌<◌, ◌≡◌, refl, sym, ap, ap₂, ◌∙◌, inl, inr, false, some, List, [], ◌∷◌, ◌++◌,
  map, if◌then◌else◌, length, take, drop, arith, append_assoc, Bool-cases,
}

abbrev PlainFields : List (Text × List ℕ) → Type 0
PlainFields [] = Unit {0}
PlainFields ((k, v) ∷ fs) = Plain k × Plain v × PlainFields fs

PlainFields-append :
    (fs gs : List (Text × List ℕ)) → PlainFields fs → PlainFields gs → PlainFields (fs ++ gs)
PlainFields-append [] gs hf hg = hg
PlainFields-append ((k, v) ∷ fs) gs hf hg = (hf.0, hf.1, PlainFields-append fs gs hf.2 hg)

value_fields-Plain :
    (k : Text) (vs : List Text) → Plain k → PlainValues vs → PlainFields (value_fields k vs)
value_fields-Plain k [] hk h = tt
value_fields-Plain k (v ∷ vs) hk h = (hk, h.0, value_fields-Plain k vs hk h.1)

header_fields-Plain : (hs : Headers) → PlainHeaders hs → PlainFields (header_fields hs)
unfolding header_fields
header_fields-Plain [] h = tt
header_fields-Plain ((k, vs) ∷ hs) h =
    elim (Bool-cases (skipped_in_request (to_ascii_lowercase k))) [
      | inl skip ↦ rw skip (header_fields-Plain hs h.2)
      | inr keep ↦ rw keep (
          PlainFields-append (value_fields k vs) (header_fields hs)
            (value_fields-Plain k vs h.0 h.1) (header_fields-Plain hs h.2))
    ]

host_fields-Plain : (host : Text) → Plain host → PlainFields (host_fields host)
host_fields-Plain [] h = tt
host_fields-Plain (c ∷ host) h = (omega arith, h, tt)

request_fields-Plain : (req : Request) → IsPlain req → PlainFields (request_fields req)
unfolding request_fields
request_fields-Plain req h =
    PlainFields-append (host_fields req.host) _ (host_fields-Plain req.host h.host) (
      PlainFields-append (header_fields req.headers) _ (header_fields-Plain req.headers h.headers) (
        omega arith,
        Digits-Plain (decimal (length req.body)) (decimal-Digits (length req.body)),
        omega arith,
      ))

colon-some : (k v : Text) → is_empty (field_line (k, v)) ≡ false
colon-some [] v = refl
colon-some (c ∷ k) v = refl

fields-PlainLines : (fs : List (Text × List ℕ)) → PlainFields fs → PlainLines (map field_line fs)
fields-PlainLines [] h = tt
fields-PlainLines ((k, v) ∷ fs) h =
    (colon-some k v, field_line-Plain k v h.0 h.1, fields-PlainLines fs h.2)

take-all : (xs : List ℕ) → take (length xs) xs ≡ xs
take-all [] = refl
take-all (x ∷ xs) = ap (λ ys. x ∷ ys) (take-all xs)

request_head-end :
    (req : Request)
    → IsPlain req
    → find_header_end (request_head req ++ req.body) ≡ some (length (request_head req))
unfolding request_head
request_head-end req h =
    let lines : List (List ℕ) = map field_line (request_fields req) in
    ap find_header_end (append_assoc (write_lines (start_line req ∷ lines)) crlf req.body)
    ∙ find_header_end-lines (start_line req) lines req.body (
      is_empty-append (req.method ++ codes " " ++ req.path) (codes " HTTP/1.1") refl,
      start_line-Plain req h,
      fields-PlainLines (request_fields req) (request_fields-Plain req h),
    )

-- What is written under a name.
abbrev pub written : Text → List (Text × List ℕ) → List Text
written name [] = []
written name ((k, v) ∷ fs) = let rest = written name fs in if k =? name then v ∷ rest else rest

values_of-written :
    (name : Text) (fs : List (Text × List ℕ)) → PlainFields fs → values_of name fs ≡ written name fs
values_of-written name [] h = refl
values_of-written name ((k, v) ∷ fs) h =
    rw (lossy-Ascii v (Plain-Ascii v h.1), values_of-written name fs h.2) refl

-- A request that `write_request` of one proxy writes is read by `read_http11_request` of the next with
-- the same method, path, host and body, and its header map has under each name the values that were
-- written with that name, in their order, however its bytes are cut into reads, where no read fails or
-- waits for ever. It holds for a request whose method, path, host and headers are ASCII without carriage
-- returns, whose head has at most 2 ^ 20 bytes and whose body is shorter than 2 ^ 63 bytes, and where
-- httparse takes the head for that method and path and the fields that were written.
pub read_http11_request-request_bytes :
    (net : Io) (stream : Stream net) (httparse : List ℕ → Head)
    → ((room : ℕ) (c : net.Conn)
        → (xs : List ℕ) × (c' : net.Conn) × (stream.read room c ≡ ok (xs, c')))
    → ((c : net.Conn) → stream.waits c ≡ false)
    → (req : Request) (c : net.Conn) → IsPlain req
    → length (request_head req) ≤ 1024 * 1024
    → length req.body < 2 ^ 63
    → httparse (request_head req) ≡ complete (some req.method) (some req.path) (request_fields req)
    → stream.unread c ≡ request_bytes req
    → (read : Request) × (c' : net.Conn) × (read_http11_request net stream httparse c
        ≡ yields (ok (read, c')))
      × (read.method ≡ req.method)
      × (read.path ≡ req.path)
      × (read.host ≡ req.host)
      × ((name : Text) → values_at name read.headers ≡ written name (request_fields req))
      × (read.body ≡ req.body)
read_http11_request-request_bytes net stream httparse reads quiet req c h short small parsed
      arrives =
    let fields : List (Text × List ℕ) = request_fields req in
    let (host, counted) = request_fields-both req h (omega arith) in
    let said : said_length fields ≡ length req.body =
      sym (add_fields-length fields no_fields refl) ∙ counted in
    let head : ℕ = length (request_head req) in
    let whole : stream.unread c ≡ request_head req ++ req.body =
      arrives ∙ request_bytes-head req h in
    let front : take head (stream.unread c) ≡ request_head req =
      ap (take head) whole ∙ take-prefix (request_head req) req.body in
    let rest : drop head (stream.unread c) ≡ req.body =
      ap (drop head) whole ∙ drop-prefix (request_head req) req.body in
    let (read, c', runs, method, path, at_host, at_name, body) =
      read_http11_request-chunks net stream httparse reads quiet c head (some req.method)
        (some req.path) fields (ap find_header_end whole ∙ request_head-end req h) short
        (ap httparse front ∙ parsed) (omega (arith, said)) in
    (
      read,
      c',
      runs,
      method,
      path,
      at_host ∙ sym (add_fields-host fields no_fields) ∙ host,
      λ name. at_name name ∙ values_of-written name fields (request_fields-Plain req h),
      body ∙ ap₂ take said rest ∙ take-all req.body,
    )
