-- ===== src/Dial/Wire.antt =====
-- The functions of upstream/dial.rs.
use service_proxy.Dial.Io.{Io}
use service_proxy.Dial.Types.{
  Headers, push_header, Request, Response, IoError, ErrorKind, UpstreamError, dial_failed, io,
  parse,
}
use service_proxy.Shared.Result.{Result, ok, err, ◌>>=◌, map_err, ok_or}
use service_proxy.Shared.Strings.{
  is_empty, trim, trim_end_by, is_newline, split_once, split_whitespace, to_ascii_lowercase,
  eq_ignore_ascii_case, as_bytes, decimal, parse_uint,
}
use service_proxy.Shared.Text.{Text, codes, ◌=?◌}
use service_proxy.Shared.{
  ℕ, zero, suc, ◌^◌, ltb, ◌==◌, Bool, true, false, ◌||◌, Option, none, some, List, [], ◌∷◌, ◌++◌,
  length, if◌then◌else◌,
}
use service_proxy.Shared.Call.{Call, yields, overflowed, blocked, spent, map_call, and_then}

-- "\r\n"
abbrev pub crlf : Text
crlf = 13 ∷ 10 ∷ []

-- How `tokio::time::timeout(DIAL_TIMEOUT, TcpStream::connect(addr))` ends.
pub data Attempt (A : Type 0) : Type 0 where
  elapsed : Attempt A
  refused : IoError → Attempt A
  connected : A → Attempt A

-- `dial`
unfoldable pub dial : {A : Type 0} → Attempt A → Result UpstreamError A
dial elapsed =
    err (dial_failed (record { kind = ErrorKind.timed_out; message = codes "dial timeout" }))
dial (refused e) = err (dial_failed e)
dial (connected conn) = ok conn

-- The inner loop over the values of one header.
unfoldable pub value_lines : Text → List Text → List ℕ
value_lines k [] = []
value_lines k (v ∷ vs) = as_bytes (k ++ codes ": " ++ v ++ crlf) ++ value_lines k vs

-- The loop over the headers, which passes over those that `skip` names.
unfoldable pub header_lines : (Text → Bool) → Headers → List ℕ
header_lines skip [] = []
header_lines skip ((k, vs) ∷ hs) =
    if skip (to_ascii_lowercase k)
    then header_lines skip hs
    else value_lines k vs ++ header_lines skip hs

abbrev pub is_framing : Text → Bool
is_framing lower = lower =? codes "connection" || lower =? codes "content-length"

abbrev pub skipped_in_request : Text → Bool
skipped_in_request lower = is_framing lower || lower =? codes "host"

-- The buffer of `write_request`.
unfoldable pub request_bytes : Request → List ℕ
unfolding header_lines value_lines
request_bytes req =
    as_bytes (req.method ++ codes " " ++ req.path ++ codes " HTTP/1.1" ++ crlf)
    ++ (if is_empty req.host then [] else as_bytes (codes "Host: " ++ req.host ++ crlf))
    ++ header_lines skipped_in_request req.headers
    ++ as_bytes (
        codes "Content-Length: "
        ++ decimal (length req.body)
        ++ crlf
        ++ codes "Connection: keep-alive"
        ++ crlf
        ++ crlf)
    ++ req.body

-- `reason_phrase`
unfoldable pub reason_phrase : ℕ → Text
reason_phrase code =
    if code == 200
    then codes "OK"
    else if code == 400
    then codes "Bad Request"
    else if code == 502
    then codes "Bad Gateway"
    else if code == 500
    then codes "Internal Server Error"
    else codes "OK"

-- The buffer of `write_response`.
unfoldable pub response_bytes : Response → List ℕ
unfolding header_lines value_lines reason_phrase
response_bytes resp =
    as_bytes (
      codes "HTTP/1.1 "
      ++ decimal resp.status_code
      ++ codes " "
      ++ reason_phrase resp.status_code
      ++ crlf)
    ++ header_lines is_framing resp.headers
    ++ as_bytes (
        codes "Content-Length: "
        ++ decimal (length resp.body)
        ++ crlf
        ++ codes "Connection: close"
        ++ crlf
        ++ crlf)
    ++ resp.body

-- `?` on an `io::Error` wraps it by `From`.
abbrev pub from_io : {A : Type 0} → Result IoError A → Result UpstreamError A
from_io = map_err io

-- The variables of the header loop in `read_response`.
pub record Parsed : Type 0 where
  pub headers : Headers
  pub content_length : Option ℕ

-- The body of the header loop, for a line that is not empty.
unfoldable pub parse_header : Text → Parsed → Result UpstreamError Parsed
parse_header line p = elim (split_once 58 line) [
  | none ↦ err (parse (codes "bad header: " ++ line))
  | some (name, value) ↦ ok (record {
    headers = push_header (trim name) (trim value) p.headers;
    content_length =
        if eq_ignore_ascii_case (trim name) (codes "content-length")
        then parse_uint (2 ^ 64) (trim value)
        else p.content_length;
  })
]

-- The status code in a status line.
unfoldable pub second : List Text → Option Text
second (a ∷ b ∷ rest) = some b
second _ = none

unfoldable pub parse_status : Text → Result UpstreamError ℕ
unfolding second
parse_status line = do
  word ← ok_or (parse (codes "missing status code")) (second (split_whitespace line))
  ok_or (parse (codes "bad status code")) (parse_uint (2 ^ 16) word)

module _ (net : Io) where
  open net use {
    Conn, Reader, write_all, flush, buffered, dropped, waits, stalls, read_line, read_exact,
    pending,
  }

  -- `write_request`, `write_response`
  unfoldable pub send : List ℕ → Conn → Result UpstreamError Conn
  send buf conn = do conn' ← from_io (write_all buf conn); from_io (flush conn')

  unfoldable pub write_request : Request → Conn → Result UpstreamError Conn
  unfolding send
  write_request req conn = send (request_bytes req) conn

  unfoldable pub write_response : Response → Conn → Result UpstreamError Conn
  unfolding send
  write_response resp conn = send (response_bytes resp) conn

  -- `write_error`
  unfoldable pub write_error : ℕ → Conn → Result UpstreamError Conn
  unfolding write_response
  write_error status conn =
      write_response (record { status_code = status; headers = []; body = [] }) conn

  -- The header loop of `read_response`
  unfoldable pub read_headers : ℕ → Parsed → Reader → Call (Result UpstreamError (Parsed × Reader))
  read_headers zero p b = spent
  read_headers (suc fuel) p b = elim (waits b) [
    | true ↦ blocked
    | false ↦ elim (read_line b) [
      | err e ↦ yields (err (io e))
      | ok (raw, b') ↦
          let line : Text = trim_end_by is_newline raw in
          elim (is_empty line) [
            | true ↦ yields (ok (p, b'))
            | false ↦ elim (parse_header line p) [
              | err e ↦ yields (err e)
              | ok p' ↦ read_headers fuel p' b'
            ]
          ]
    ]
  ]

  -- The body of `read_response`, after the headers: `vec![0u8; n]` panics above isize::MAX.
  unfoldable pub read_body : Option ℕ → Reader → Call (Result UpstreamError (List ℕ × Reader))
  read_body (some n) b =
      if ltb n (2 ^ 63)
      then (if stalls n b then blocked else yields (from_io (read_exact n b)))
      else overflowed
  read_body none b = yields (ok ([], b))

  -- What follows the status line.
  unfoldable pub read_rest : ℕ → ℕ → Reader → Call (Result UpstreamError (Response × Reader))
  unfolding read_headers read_body
  read_rest fuel code b =
      and_then (read_headers fuel (record { headers = []; content_length = none }) b) (λ (p, b').
        and_then (read_body p.content_length b') (λ (body, b'').
          yields (ok (record { status_code = code; headers = p.headers; body = body }, b''))))

  -- `read_response`. A connection gives fewer lines than it has bytes.
  unfoldable pub read_response : Reader → Call (Result UpstreamError (Response × Reader))
  unfolding read_rest
  read_response b = elim (waits b) [
    | true ↦ blocked
    | false ↦ elim (read_line b) [
      | err e ↦ yields (err (io e))
      | ok (line, b') ↦
          if is_empty line
          then yields (err (parse (codes "empty status line")))
          else elim (parse_status line) [
            | err e ↦ yields (err e)
            | ok code ↦ read_rest (suc (length (pending b'))) code b'
          ]
    ]
  ]

  -- `forward`: the connection that is left comes back with the response.
  unfoldable pub forward : Request → Conn → Call (Result UpstreamError (Response × Conn))
  unfolding read_response write_request
  forward req conn = elim (write_request req conn) [
    | err e ↦ yields (err e)
    | ok conn' ↦
        map_call
          (λ (r : Result UpstreamError (Response × Reader)). do (resp, b) ← r; ok (resp, dropped b))
          (read_response (buffered conn'))
  ]

  -- `forward_http`
  unfoldable pub forward_http : Attempt Conn → Request → Call (Result UpstreamError Response)
  unfolding forward dial
  forward_http attempt req = elim (dial attempt) [
    | err e ↦ yields (err e)
    | ok conn ↦
        map_call (λ (r : Result UpstreamError (Response × Conn)). do (resp, conn') ← r; ok resp)
          (forward req conn)
  ]
