-- ===== src/Http/Relay.antt =====
-- A request that `write_request` of upstream/dial.rs has written, for `read_http11_request` of
-- proxy_http.rs to read: one proxy behind another.
pub mod Bytes
pub mod Parsed
pub mod Whole
use service_proxy.Dial.Io.{Io}
use service_proxy.Dial.RoundTrip.Lines.{Ascii, as_bytes-Ascii, as_bytes-append}
use service_proxy.Dial.Types.{Headers, Request}
use service_proxy.Dial.Wire.{
  request_bytes, header_lines, value_lines, skipped_in_request, is_framing, crlf,
}
use service_proxy.Http.Chunks.{read_http11_request-chunks}
use service_proxy.Http.Lines.{
  Plain, PlainLines, write_lines, find_header_end-lines, take-prefix, drop-prefix, Plain-append,
  PlainLines-append, write_lines-append,
}
use service_proxy.Http.{
  find_header_end, Head, complete, Fields, add_field, add_fields, no_fields, build_request, Stream,
  read_http11_request,
}
use service_proxy.Shared.Result.{ok}
use service_proxy.Shared.Strings.Decimal.{Digits, decimal-Digits, parse_uint-decimal}
use service_proxy.Shared.Strings.Utf8.{from_utf8_lossy, decode, lead, Lead, single}
use service_proxy.Shared.Strings.{
  is_empty, as_bytes, decimal, to_ascii_lowercase, lower, eq_ignore_ascii_case, parse_uint,
}
use service_proxy.Shared.Text.{Text, codes, ◌=?◌}
use service_proxy.Shared.{
  ℕ, ◌+◌, ◌*◌, ◌^◌, ◌≤◌, ◌<◌, ◌≡◌, ◌≢◌, refl, sym, ap, ap₂, ◌∙◌, subst, inl, inr, Bool, true, false,
  ◌||◌, Option, none, some, List, [], ◌∷◌, ◌++◌, map, length, length-append, take, drop,
  if◌then◌else◌, arith, append_assoc, append-nil, map-append, Bool-cases, lt→ltb,
}

-- The fields that `write_request` sends for the headers of the request: each value with its name.
abbrev pub value_fields : Text → List Text → List (Text × List ℕ)
value_fields k [] = []
value_fields k (v ∷ vs) = (k, v) ∷ value_fields k vs

unfoldable pub header_fields : Headers → List (Text × List ℕ)
header_fields [] = []
header_fields ((k, vs) ∷ hs) =
    if skipped_in_request (to_ascii_lowercase k)
    then header_fields hs
    else value_fields k vs ++ header_fields hs

abbrev pub host_fields : Text → List (Text × List ℕ)
host_fields host = if is_empty host then [] else (codes "Host", host) ∷ []

abbrev pub last_fields : ℕ → List (Text × List ℕ)
last_fields n = (codes "Content-Length", decimal n) ∷ (codes "Connection", codes "keep-alive") ∷ []

-- All fields of a request, in the order in which they are written.
unfoldable pub request_fields : Request → List (Text × List ℕ)
unfolding header_fields
request_fields req =
    host_fields req.host ++ (header_fields req.headers ++ last_fields (length req.body))

abbrev pub field_line : Text × List ℕ → List ℕ
field_line (k, v) = k ++ codes ": " ++ v

abbrev pub start_line : Request → List ℕ
start_line req = req.method ++ codes " " ++ req.path ++ codes " HTTP/1.1"

-- The head of a request: its lines and the empty line.
unfoldable pub request_head : Request → List ℕ
unfolding request_fields
request_head req = write_lines (start_line req ∷ map field_line (request_fields req)) ++ crlf

abbrev pub PlainValues : List Text → Type 0
PlainValues [] = Unit {0}
PlainValues (v ∷ vs) = Plain v × PlainValues vs

abbrev pub PlainHeaders : Headers → Type 0
PlainHeaders [] = Unit {0}
PlainHeaders ((k, vs) ∷ hs) = Plain k × PlainValues vs × PlainHeaders hs

-- A request whose parts are ASCII without carriage returns.
pub record IsPlain (req : Request) : Type 0 where
  pub method : Plain req.method
  pub path : Plain req.path
  pub host : Plain req.host
  pub headers : PlainHeaders req.headers
