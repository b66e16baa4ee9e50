-- ===== src/Tests/Dial.antt =====
-- Runs of upstream/dial.rs.
use service_proxy.Dial.RoundTrip.Lines.{IsName, IsValue}
use service_proxy.Dial.RoundTrip.Whole.{received, read_response-write_response}
use service_proxy.Dial.RoundTrip.Edges.{announcing, read_response-cut_off, forward-overflows}
use service_proxy.Dial.RoundTrip.Cut.{status_line}
use service_proxy.Shared.Call.{yields, overflowed}
use service_proxy.Dial.Types.{Request, Headers, Response}
use service_proxy.Dial.Wire.{
  response_bytes, header_lines, is_framing, crlf, read_response, connected, request_bytes,
  write_request, send, forward, forward_http,
}
use service_proxy.Tests.Net.{Tape, tape_net, tape_read_line, cut_line, arriving}
use service_proxy.Shared.Result.{ok}
use service_proxy.Shared.Strings.{to_ascii_lowercase, is_whitespace, trim}
use service_proxy.Shared.Text.{Text, codes}
use service_proxy.Shared.{◌^◌, ◌≡◌, refl, sym, ap, ◌∙◌, [], ◌∷◌, ◌++◌, arith}

abbrev x_id : Text
x_id = codes "X-Id"

abbrev u1 : Text
u1 = codes "u1"

abbrev reply : Response
reply = record { status_code = 200; headers = (x_id, u1 ∷ []) ∷ []; body = 104 ∷ 105 ∷ [] }

x_id-IsName : IsName x_id
unfolding is_whitespace
x_id-IsName = record {
  some_char = refl;
  ascii = (omega arith, (omega arith, (omega arith, (omega arith, tt))));
  solid = (refl, (refl, (refl, (refl, tt))));
  no_colon = (refl, (refl, (refl, (refl, tt))));
}

u1-IsValue : IsValue u1
unfolding trim
u1-IsValue = record {
  one_line = (omega arith, omega arith, (omega arith, omega arith, tt));
  trimmed = refl;
}

read_response-write_response_example :
    (b' : Tape) × (b'.inbox ≡ 7 ∷ [])
    × (read_response tape_net (arriving (response_bytes reply ++ 7 ∷ []))
        ≡ yields (
            ok (record { status_code = 200; headers = received reply; body = 104 ∷ 105 ∷ [] }, b')))
read_response-write_response_example =
    read_response-write_response tape_net reply (arriving (response_bytes reply ++ 7 ∷ [])) (7 ∷ [])
      (x_id-IsName, (u1-IsValue, tt), tt) (tt, tt) (omega arith) (omega arith) refl

abbrev x_headers : Headers
x_headers = (x_id, u1 ∷ []) ∷ []

tape_end : (c : Tape) → c.inbox ≡ [] → tape_read_line c ≡ ok ([], c)
tape_end c closed =
    ap (λ xs. ok ((cut_line xs).0, record c { inbox = (cut_line xs).1 })) closed
    ∙ ap (λ xs. ok ([], record c { inbox = xs })) (sym closed)

read_response-cut_off_example :
    (b' : Tape) × (read_response tape_net
        (arriving (status_line 200 ++ crlf ++ header_lines is_framing x_headers))
      ≡ yields (ok (record { status_code = 200; headers = x_headers; body = [] }, b')))
unfolding to_ascii_lowercase
read_response-cut_off_example =
    read_response-cut_off tape_net 200 x_headers
      (arriving (status_line 200 ++ crlf ++ header_lines is_framing x_headers))
      (λ c closed. (refl, c, tape_end c closed)) (x_id-IsName, (u1-IsValue, tt), tt) (tt, tt)
      (omega arith) refl

abbrev request : Request
request = record {
  method = codes "GET";
  path = codes "/";
  host = codes "a";
  headers = [];
  body = [];
}

-- The headers announce 2 ^ 63 bytes.
abbrev announced : Tape
announced = arriving (announcing tape_net 200 (2 ^ 63) x_headers [])

forward-overflows_example :
    (forward tape_net request announced ≡ overflowed)
    × (forward_http tape_net (connected announced) request ≡ overflowed)
unfolding write_request send
forward-overflows_example =
    forward-overflows tape_net request announced (record announced { sent = request_bytes request })
      200 (2 ^ 63) x_headers [] (x_id-IsName, (u1-IsValue, tt), tt) (tt, tt) (omega arith)
      (omega arith) (omega arith) refl refl
