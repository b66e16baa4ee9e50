-- ===== src/Tests/Http.antt =====
-- Runs of proxy_http.rs.
use service_proxy.Balancer.Kind.{SelectorKind, lb_least_conn}
use service_proxy.Dial.Types.{Request, Response, IoError, UpstreamError}
use service_proxy.Http.Chunks.{read_http11_request-chunks}
use service_proxy.Dial.Wire.{request_bytes}
use service_proxy.Http.Relay.{request_fields, header_fields, request_head}
use service_proxy.Http.Relay.Whole.{written, read_http11_request-request_bytes}
use service_proxy.Shared.Strings.{
  to_ascii_lowercase, lower, decimal, eq_ignore_ascii_case, parse_uint,
}
use service_proxy.Http.Overflow.{read_http11_request-overflows}
use service_proxy.Http.Said.{values_of, values_at}
use service_proxy.Shared.Call.{yields, overflowed}
use service_proxy.Shared.Strings.Utf8.{from_utf8_lossy}
use service_proxy.Balancer.Rng.{Rng}
use service_proxy.Http.Hyper.{
  HyperRequest, plain, upstream_request, hyper_reply, handle_hyper_request,
  handle_hyper_request-inflight,
}
use service_proxy.Http.{find_header_end, Head, complete, Stream, read_http11_request, handle_conn}
use service_proxy.Http3.{RequestStream, Http3Request}
use service_proxy.Proxy.InFlight.{inflight_of}
use service_proxy.Shared.Result.{Result, ok, err}
use service_proxy.Shared.Text.{Text, codes}
use service_proxy.Tests.Balancer.{three, one_given, one_given-Reach}
use service_proxy.Tests.Net.{Tape, tape_net, arriving, counting_rng}
use service_proxy.Tests.Proxy.{echoing, third_next}
use service_proxy.Shared.{
  ℕ, zero, suc, ◌≤◌, ◌<◌, ◌≡◌, Option, refl, sym, ap, ◌∙◌, inl, inr, ltb, leb, Bool, false, ◌&&◌,
  none, some, List, [], ◌∷◌, ◌++◌, length, take, drop, arith, if◌then◌else◌,
}

-- Three bytes at a time at most.
abbrev few : ℕ → ℕ
few room = if ltb room 3 then room else 3

take-drop : (n : ℕ) (xs : List ℕ) → xs ≡ take n xs ++ drop n xs
take-drop zero xs = refl
take-drop (suc n) [] = refl
take-drop (suc n) (x ∷ xs) = ap (λ ys. x ∷ ys) (take-drop n xs)

length-take_le : (n : ℕ) (xs : List ℕ) → length (take n xs) ≤ n
length-take_le zero xs = omega arith
length-take_le (suc n) [] = omega arith
length-take_le (suc n) (x ∷ xs) = omega (arith, length-take_le n xs)

drop-end : (n : ℕ) (xs : List ℕ) → 0 < n → take n xs ≡ [] → drop n xs ≡ []
drop-end zero xs pos e = absurd (omega arith)
drop-end (suc n) [] pos e = refl
drop-end (suc n) (x ∷ xs) pos e = absurd cc

few-le : (room : ℕ) → few room ≤ room
few-le room = ground arith

few-pos : (room : ℕ) → 0 < room → 0 < few room
few-pos room h = ground arith

abbrev slow_read : ℕ → Tape → Result IoError (List ℕ × Tape)
slow_read room t = ok (take (few room) t.inbox, record t { inbox = drop (few room) t.inbox })

pub slow_read-unread :
    (room : ℕ) (c c' : Tape) (xs : List ℕ)
    → slow_read room c ≡ ok (xs, c')
    → c.inbox ≡ xs ++ c'.inbox
slow_read-unread room c c' xs e =
    let first : take (few room) c.inbox ≡ xs = cc in
    let rest : drop (few room) c.inbox ≡ c'.inbox = cc in
    rw (← first, ← rest) (take-drop (few room) c.inbox)

pub slow_read-room :
    (room : ℕ) (c c' : Tape) (xs : List ℕ) → slow_read room c ≡ ok (xs, c') → length xs ≤ room
slow_read-room room c c' xs e =
    let first : take (few room) c.inbox ≡ xs = cc in
    rw (← first) (omega (arith, length-take_le (few room) c.inbox, few-le room))

pub slow_read-end :
    (room : ℕ) (c c' : Tape) → 0 < room → slow_read room c ≡ ok ([], c') → c'.inbox ≡ []
slow_read-end room c c' pos e =
    let first : take (few room) c.inbox ≡ [] = cc in
    let rest : drop (few room) c.inbox ≡ c'.inbox = cc in
    sym rest ∙ drop-end (few room) c.inbox (few-pos room pos) first

abbrev pub slow : Stream tape_net
slow = record {
  read = slow_read;
  waits = λ t. false;
  unread = λ t. t.inbox;
  read-unread = slow_read-unread;
  read-room = slow_read-room;
  read-end = slow_read-end;
}

-- A header parser that knows one request.
abbrev pub one_head : List ℕ → Head
one_head bytes =
    complete (some (codes "POST")) (some (codes "/x")) ((codes "Content-Length", codes "2") ∷ [])

abbrev head_bytes : List ℕ
head_bytes = 71 ∷ 69 ∷ 84 ∷ 13 ∷ 10 ∷ 13 ∷ 10 ∷ []

-- A head, its body of two bytes, and one byte more.
abbrev pub incoming : Tape
incoming = arriving (head_bytes ++ 104 ∷ 105 ∷ 9 ∷ [])

slow_reads : (room : ℕ) (c : Tape) → (xs : List ℕ) × (c' : Tape) × (slow_read room c ≡ ok (xs, c'))
slow_reads room c = (take (few room) c.inbox, record c { inbox = drop (few room) c.inbox }, refl)

-- The head gives the body its length in a field whose name is in small letters.
abbrev length_fields : List (Text × List ℕ)
length_fields = (codes "X-Id", codes "u1") ∷ (codes "content-length", codes "2") ∷ []

abbrev named_head : List ℕ → Head
named_head bytes = complete (some (codes "POST")) (some (codes "/x")) length_fields

read_http11_request-chunks_example :
    (req : Request) × (c' : Tape) × (read_http11_request tape_net slow named_head incoming
      ≡ yields (ok (req, c')))
    × (req.method ≡ codes "POST")
    × (req.path ≡ codes "/x")
    × (req.host ≡ [])
    × ((name : Text) → values_at name req.headers ≡ values_of name length_fields)
    × (req.body ≡ 104 ∷ 105 ∷ [])
unfolding find_header_end to_ascii_lowercase lower eq_ignore_ascii_case parse_uint from_utf8_lossy
read_http11_request-chunks_example =
    read_http11_request-chunks tape_net slow named_head slow_reads (λ c. refl) incoming 7
      (some (codes "POST")) (some (codes "/x")) length_fields refl (omega arith) refl (omega arith)

-- A head that announces 2 ^ 63 + 3 bytes.
abbrev large_fields : List (Text × List ℕ)
large_fields = (codes "Content-Length", codes "9223372036854775811") ∷ []

abbrev large_head : List ℕ → Head
large_head bytes = complete (some (codes "POST")) (some (codes "/x")) large_fields

read_http11_request-overflows_example :
    (read_http11_request tape_net slow large_head incoming ≡ overflowed)
    × ((r : Rng) (forward : Text → Request → Result UpstreamError Response)
          (s : SelectorKind × r.State)
        → handle_conn tape_net slow large_head r forward incoming s ≡ (s, none))
unfolding find_header_end to_ascii_lowercase lower eq_ignore_ascii_case parse_uint from_utf8_lossy
read_http11_request-overflows_example =
    read_http11_request-overflows tape_net slow large_head slow_reads (λ c. refl) incoming 7
      (some (codes "POST")) (some (codes "/x")) large_fields refl (omega arith) refl (omega arith)

-- A request of two bytes over HTTP/2.
abbrev hyper_request : HyperRequest
hyper_request = record {
  method = codes "POST";
  path_and_query = some (codes "/x?y=1");
  path = codes "/x";
  headers = (codes "accept", codes "*/*") ∷ [];
  body = ok (104 ∷ 105 ∷ []);
}

-- A builder that takes the status codes from 100 to 999.
abbrev builder : ℕ → List (Text × Text) → Bool
builder status headers = leb 100 status && leb status 999

handle_hyper_request-inflight_example :
    ((e : Text)
      → hyper_request.body ≡ err e
      → handle_hyper_request builder counting_rng echoing hyper_request
          (one_given.kind, one_given.gen)
        ≡ ((one_given.kind, one_given.gen), some (plain 400 (codes "failed to read body"))))
    × ((body : List ℕ)
        → hyper_request.body ≡ ok body
        → (u : SelectorKind) × (handle_hyper_request builder counting_rng echoing hyper_request
              (one_given.kind, one_given.gen)
            ≡ (
              (u, 4),
              (hyper_reply builder {S = SelectorKind × ℕ}
                  (echoing (codes "a:1") (upstream_request hyper_request (codes "a:1") body))
                  (u, 4)).1,
            ))
          × (inflight_of u ≡ inflight_of one_given.kind))
handle_hyper_request-inflight_example =
    handle_hyper_request-inflight builder counting_rng three lb_least_conn 0 echoing hyper_request
      (inr (inl refl)) (omega arith) (omega arith) one_given-Reach (codes "a:1") 0 third_next

-- A client that has sent these chunks, and what it has been answered.
record Chunked : Type 0 where
  inbox : List (List ℕ)
  sent : List ℕ

abbrev next_chunk : Chunked → Result Text (Option (List ℕ) × Chunked)
next_chunk s = elim s.inbox [
  | [] ↦ ok (none, s)
  | chunk ∷ rest ↦ ok (some chunk, record s { inbox = rest })
]

next_chunk-less :
    (s s' : Chunked) (chunk : List ℕ)
    → next_chunk s ≡ ok (some chunk, s')
    → length s'.inbox < length s.inbox
next_chunk-less s s' chunk e = ground arith

abbrev chunked : RequestStream
chunked = record {
  Stream = Chunked;
  recv_data = next_chunk;
  send_response = λ status headers s. ok s;
  send_data = λ body s. ok (record s { sent = s.sent ++ body });
  finish = λ s. ok s;
  chunks = λ s. length s.inbox;
  recv_data-less = next_chunk-less;
}

abbrev takes_all : ℕ → List (Text × Text) → Result Text (Unit {0})
takes_all status headers = ok tt

abbrev http3_request : Http3Request
http3_request = record {
  method = codes "POST";
  path_and_query = none;
  path = codes "/x";
  headers = [];
}

abbrev two_chunks : Chunked
two_chunks = record { inbox = (104 ∷ []) ∷ (105 ∷ []) ∷ []; sent = [] }

-- A request that a proxy has written for the next.
abbrev relayed : Request
relayed = record {
  method = codes "POST";
  path = codes "/x";
  host = codes "a:1";
  headers = (codes "Accept", codes "*/*" ∷ []) ∷ (codes "Connection", codes "close" ∷ []) ∷ [];
  body = 104 ∷ 105 ∷ [];
}

abbrev relayed_head : List ℕ → Head
relayed_head bytes = complete (some (codes "POST")) (some (codes "/x")) (request_fields relayed)

read_http11_request-request_bytes_example :
    (read : Request) × (c' : Tape) × (read_http11_request tape_net slow relayed_head
        (arriving (request_bytes relayed))
      ≡ yields (ok (read, c')))
    × (read.method ≡ codes "POST")
    × (read.path ≡ codes "/x")
    × (read.host ≡ codes "a:1")
    × ((name : Text) → values_at name read.headers ≡ written name (request_fields relayed))
    × (read.body ≡ 104 ∷ 105 ∷ [])
unfolding request_head request_fields header_fields to_ascii_lowercase lower decimal
read_http11_request-request_bytes_example =
    read_http11_request-request_bytes tape_net slow relayed_head slow_reads (λ c. refl) relayed
      (arriving (request_bytes relayed))
      (record {
        method = omega arith;
        path = omega arith;
        host = omega arith;
        headers = omega arith;
      })
      (omega arith) (omega arith) refl refl
