-- ===== src/Http.antt =====
-- crates/service-proxy/src/proxy_http.rs: reading one HTTP/1.1 request from a client, and
-- `handle_conn`. The header parser is the crate httparse, and an argument.
pub mod Ends
pub mod Said
pub mod Reads
pub mod Overflow
pub mod Chunks
pub mod Served
pub mod Hyper
pub mod Lines
pub mod Relay
use service_proxy.Balancer.Kind.{SelectorKind}
use service_proxy.Balancer.Rng.{Rng}
use service_proxy.Dial.Io.{Io}
use service_proxy.Dial.Types.{
  Headers, push_header, Request, Response, ErrorKind, IoError, UpstreamError,
}
use service_proxy.Dial.Wire.{write_response, write_error}
use service_proxy.Proxy.{choose_upstream, give_back}
use service_proxy.Config.{unwrap_or}
use service_proxy.Shared.Call.{Call, yields, overflowed, blocked, spent, map_call, value_of}
use service_proxy.Shared.Result.{Result, ok, err, map_ok}
use service_proxy.Shared.Strings.Utf8.{from_utf8_lossy}
use service_proxy.Shared.Strings.{is_empty, eq_ignore_ascii_case, parse_uint}
use service_proxy.Shared.Text.{Text, codes}
use service_proxy.Shared.{
  ℕ, zero, suc, ◌+◌, ◌-◌, ◌*◌, ◌^◌, ◌≤◌, ◌<◌, ◌≡◌, ltb, ◌==◌, Bool, true, false, ◌&&◌, Option, none,
  some, List, [], ◌∷◌, ◌++◌, length, take, drop, if◌then◌else◌, Op, pure, ◌>>=◌, ◌>>◌,
}
use mathlib.Core.Option

-- `w == b"\r\n\r\n"` for the window at the front.
unfoldable pub is_end : List ℕ → Bool
is_end (a ∷ b ∷ c ∷ d ∷ rest) = a == 13 && b == 10 && c == 13 && d == 10
is_end _ = false

-- `windows(4).position(…)`
unfoldable pub position : List ℕ → Option ℕ
unfolding is_end
position [] = none
position (a ∷ rest) =
    let later = position rest in if is_end (a ∷ rest) then some 0 else Option.map suc later

-- `find_header_end`
unfoldable pub find_header_end : List ℕ → Option ℕ
unfolding position
find_header_end buf = Option.map (λ i. i + 4) (position buf)

-- How `httparse::Request::parse` ends, with room for 64 headers.
pub data Head : Type 0 where
  complete : (method path : Option Text) (headers : List (Text × List ℕ)) → Head
  partial_head : Head
  bad_head : Text → Head

-- The variables of the header loop in `parse_request`.
pub record Fields : Type 0 where
  pub header_map : Headers
  pub host : Text
  pub content_length : ℕ

unfoldable pub add_field : Text → List ℕ → Fields → Fields
unfolding from_utf8_lossy
add_field name raw f =
    let value : Text = from_utf8_lossy raw in
    record {
      header_map = push_header name value f.header_map;
      host = if eq_ignore_ascii_case name (codes "host") then value else f.host;
      content_length =
          if eq_ignore_ascii_case name (codes "content-length")
          then unwrap_or (parse_uint (2 ^ 64) value) 0
          else f.content_length;
    }

unfoldable pub add_fields : List (Text × List ℕ) → Fields → Fields
unfolding add_field
add_fields [] f = f
add_fields ((name, raw) ∷ hs) f = add_fields hs (add_field name raw f)

abbrev pub no_fields : Fields
no_fields = record { header_map = []; host = []; content_length = 0 }

-- The end of `parse_request`
unfoldable pub build_request : Option Text → Option Text → Fields → List ℕ → Request
build_request method path f body = record {
  method = unwrap_or method (codes "GET");
  path = unwrap_or path (codes "/");
  host = f.host;
  headers = f.header_map;
  body = take f.content_length body;
}

abbrev pub eof : Text → IoError
eof message = record { kind = ErrorKind.unexpected_eof; message = message }

abbrev pub bad_data : Text → IoError
bad_data message = record { kind = ErrorKind.invalid_data; message = message }

-- `AsyncReadExt::read` of tokio, on the connection of a client: some of the bytes that the peer has
-- sent or will send, at most as many as there is room for, and none only at their end. It `waits` for
-- ever where the peer stalls: nothing comes and the peer does not close.
pub record Stream (net : Io) : Type 0 where
  pub read : ℕ → net.Conn → Result IoError (List ℕ × net.Conn)
  pub waits : net.Conn → Bool
  pub unread : net.Conn → List ℕ
  pub read-unread :
      (room : ℕ) (c c' : net.Conn) (xs : List ℕ)
      → read room c ≡ ok (xs, c')
      → unread c ≡ xs ++ unread c'
  pub read-room :
      (room : ℕ) (c c' : net.Conn) (xs : List ℕ) → read room c ≡ ok (xs, c') → length xs ≤ room
  pub read-end :
      (room : ℕ) (c c' : net.Conn) → 0 < room → read room c ≡ ok ([], c') → unread c' ≡ []

module _ (net : Io) (stream : Stream net) (httparse : List ℕ → Head) where
  open net use {Conn}
  open stream use {read, waits, unread}

  -- The body loop of `parse_request`: `vec![0u8; content_length - body.len()]` panics above isize::MAX.
  unfoldable pub read_content : ℕ → ℕ → List ℕ → Conn → Call (Result IoError (List ℕ × Conn))
  read_content zero n body conn = spent
  read_content (suc fuel) n body conn = elim (ltb (length body) n) [
    | false ↦ yields (ok (body, conn))
    | true ↦ elim (ltb (n - length body) (2 ^ 63)) [
      | false ↦ overflowed
      | true ↦ elim (waits conn) [
        | true ↦ blocked
        | false ↦ elim (read (n - length body) conn) [
          | err e ↦ yields (err e)
          | ok (chunk, conn') ↦ elim (is_empty chunk) [
            | true ↦ yields (ok (body, conn'))
            | false ↦ read_content fuel n (body ++ chunk) conn'
          ]
        ]
      ]
    ]
  ]

  -- `parse_request`. A connection gives fewer chunks than it has bytes.
  unfoldable pub parse_request : List ℕ → ℕ → Conn → Call (Result IoError (Request × Conn))
  unfolding read_content add_fields build_request
  parse_request buf hdr_end conn = elim (httparse (take hdr_end buf)) [
    | partial_head ↦ yields (err (eof (codes "partial headers")))
    | bad_head e ↦ yields (err (bad_data e))
    | complete method path headers ↦
        let f : Fields = add_fields headers no_fields in
        map_call (map_ok (λ (body, conn'). (build_request method path f body, conn')))
          (read_content (suc (length (unread conn))) f.content_length (drop hdr_end buf) conn)
  ]

  -- The loop of `read_http11_request`
  unfoldable pub read_head : ℕ → List ℕ → Conn → Call (Result IoError (Request × Conn))
  unfolding parse_request find_header_end
  read_head zero buf conn = spent
  read_head (suc fuel) buf conn = elim (waits conn) [
    | true ↦ blocked
    | false ↦ elim (read 1024 conn) [
      | err e ↦ yields (err e)
      | ok (chunk, conn') ↦ elim (is_empty chunk) [
        | true ↦ yields (err (eof (codes "eof before headers")))
        | false ↦ elim (find_header_end (buf ++ chunk)) [
          | some hdr_end ↦ parse_request (buf ++ chunk) hdr_end conn'
          | none ↦ elim (ltb (1024 * 1024) (length (buf ++ chunk))) [
            | true ↦ yields (err (bad_data (codes "headers too large")))
            | false ↦ read_head fuel (buf ++ chunk) conn'
          ]
        ]
      ]
    ]
  ]

  -- `read_http11_request`
  unfoldable pub read_http11_request : Conn → Call (Result IoError (Request × Conn))
  unfolding read_head
  read_http11_request conn = read_head (suc (length (unread conn))) [] conn

  -- How `handle_conn` ends: no request was read, or the answer was written, as well as it could be.
  pub data Outcome : Type 0 where
    unread_request : IoError → Outcome
    answered : Result UpstreamError Conn → Outcome
    gave_up : UpstreamError → Result UpstreamError Conn → Outcome

  -- The last `match` of `handle_conn`
  unfoldable pub conn_reply : Conn → Result UpstreamError Response → Outcome
  conn_reply conn (ok resp) = answered (write_response net resp conn)
  conn_reply conn (err e) = gave_up e (write_error net 502 conn)

  -- `handle_conn`. It does not come back where the read panics or waits for ever.
  unfoldable pub handle_conn :
      (r : Rng)
      → (Text → Request → Result UpstreamError Response)
      → Conn
      → Op (SelectorKind × r.State) Outcome
  unfolding read_http11_request give_back conn_reply
  handle_conn r forward conn = elim (value_of (read_http11_request conn)) [
    | none ↦ (λ s. (s, none))
    | some (err e) ↦ pure (unread_request e)
    | some (ok (req, conn')) ↦ do
      (addr, tok) ← choose_upstream r
      let result = forward addr req
      give_back r tok
      pure (conn_reply conn' result)
  ]
