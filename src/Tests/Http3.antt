-- ===== src/Tests/Http3.antt =====
-- A run of the smoke client for HTTP/3.
use service_proxy.Balancer.Counters
use service_proxy.Balancer.Kind
use service_proxy.Balancer.LeastConn
use service_proxy.Balancer.Kind.{SelectorKind, lb_least_conn}
use service_proxy.Http.Hyper.{collect_headers}
use service_proxy.Http3.{
  RequestStream, Http3Request, http3_upstream_request, handle_http3_request, recv_body, answer,
  http3_reply,
}
use service_proxy.Proxy.{give_back}
use service_proxy.Shared.Result.{Result, ok, err}
use service_proxy.Shared.Strings.{decimal}
use service_proxy.Shared.Text.{Text, codes}
use service_proxy.Smoke.Http3.Answered.{print_response-answered}
use service_proxy.Smoke.Http3.Streams.{Served, Carried, expected}
use service_proxy.Smoke.Http3.{ClientStream, post, shown, print_response}
use service_proxy.Tests.Balancer.{three}
use service_proxy.Tests.Net.{counting_rng}
use service_proxy.Tests.Proxy.{echoing}
use service_proxy.Shared.{
  ℕ, ◌<◌, ◌≡◌, ◌≢◌, refl, Option, none, some, List, [], ◌∷◌, ◌++◌, length, arith,
}

-- Either end of a stream: the chunks to come, the status, and what has been sent.
record End : Type 0 where
  inbox : List (List ℕ)
  status : Option ℕ
  sent : List ℕ

abbrev joined : List (List ℕ) → List ℕ
joined [] = []
joined (chunk ∷ rest) = chunk ++ joined rest

abbrev next_chunk : End → Result Text (Option (List ℕ) × End)
next_chunk s = elim s.inbox [
  | [] ↦ ok (none, s)
  | chunk ∷ rest ↦ ok (some chunk, record s { inbox = rest })
]

next_chunk-less :
    (s s' : End) (chunk : List ℕ)
    → next_chunk s ≡ ok (some chunk, s')
    → length s'.inbox < length s.inbox
next_chunk-less s s' chunk e = ground arith

next_chunk-some :
    (s s' : End) (chunk : List ℕ)
    → next_chunk s ≡ ok (some chunk, s')
    → joined s.inbox ≡ chunk ++ joined s'.inbox
next_chunk-some s s' chunk e = ground arith

next_chunk-none : (s s' : End) → next_chunk s ≡ ok (none, s') → joined s.inbox ≡ []
next_chunk-none s s' e = ground arith

next_chunk-sent :
    (s s' : End) (chunk : Option (List ℕ)) → next_chunk s ≡ ok (chunk, s') → s'.sent ≡ s.sent
next_chunk-sent s s' chunk e = ground arith

abbrev server : RequestStream
server = record {
  Stream = End;
  recv_data = next_chunk;
  send_response = λ status headers s. ok (record s { status = some status });
  send_data = λ body s. ok (record s { sent = s.sent ++ body });
  finish = λ s. ok s;
  chunks = λ s. length s.inbox;
  recv_data-less = next_chunk-less;
}

server-responds :
    (status : ℕ) (headers : List (Text × Text)) (s s' : End)
    → server.send_response status headers s ≡ ok s'
    → (s'.status ≡ some status) × (s'.sent ≡ s.sent)
server-responds status headers s s' e = ground arith

server-sends :
    (body : List ℕ) (s s' : End)
    → server.send_data body s ≡ ok s'
    → (s'.status ≡ s.status) × (s'.sent ≡ s.sent ++ body)
server-sends body s s' e = ground arith

server-ends : (s s' : End) → server.finish s ≡ ok s' → (s'.status ≡ s.status) × (s'.sent ≡ s.sent)
server-ends s s' e = ground arith

abbrev server_Served : Served server
server_Served = record {
  incoming = λ s. joined s.inbox;
  told = λ s. s.status;
  sent = λ s. s.sent;
  recv_data-some = next_chunk-some;
  recv_data-none = next_chunk-none;
  recv_data-sent = next_chunk-sent;
  send_response-told = server-responds;
  send_data-sent = server-sends;
  finish-sent = server-ends;
}

abbrev told_status : End → Result Text (ℕ × End)
told_status s = elim s.status [ none ↦ err [] | some code ↦ ok (code, s) ]

abbrev client : ClientStream
client = record {
  Stream = End;
  send_data = λ body s. ok (record s { sent = s.sent ++ body });
  finish = λ s. ok s;
  recv_response = told_status;
  recv_data = next_chunk;
  chunks = λ s. length s.inbox;
  recv_data-less = next_chunk-less;
}

told_status-lem :
    (s s' : End) (code : ℕ)
    → told_status s ≡ ok (code, s')
    → (s.status ≡ some code) × (joined s.inbox ≡ joined s'.inbox)
told_status-lem s s' code e = ground arith

abbrev client_Carried : Carried client
client_Carried = record {
  incoming = λ s. joined s.inbox;
  status = λ s. s.status;
  sent = λ s. s.sent;
  send_data-sent = λ body s s' e. (server-sends body s s' e).1;
  finish-sent = λ s s' e. (server-ends s s' e).1;
  recv_response-status = told_status-lem;
  recv_data-some = next_chunk-some;
  recv_data-none = next_chunk-none;
}

abbrev request : Http3Request
request = record {
  method = codes "POST";
  path_and_query = some (codes "/echo");
  path = codes "/echo";
  headers = (codes "content-type", codes "application/octet-stream") ∷ [];
}

-- A payload of two bytes in two chunks, and its echo.
abbrev payload : List ℕ
payload = 104 ∷ 105 ∷ []

abbrev fresh : End
fresh = record { inbox = []; status = none; sent = [] }

abbrev posted : End
posted = record { inbox = []; status = none; sent = payload }

abbrev arrived : End
arrived = record { inbox = (104 ∷ []) ∷ (105 ∷ []) ∷ []; status = none; sent = [] }

abbrev answered : End
answered = record { inbox = []; status = some 200; sent = payload }

abbrev got : End
got = record { inbox = payload ∷ []; status = some 200; sent = payload }

abbrev takes_all : ℕ → List (Text × Text) → Result Text (Unit {0})
takes_all status headers = ok tt

abbrev selector : SelectorKind × ℕ
selector = (Kind.new_selector three lb_least_conn, 0)

print_response-answered_example :
    (addr : Text) × (tok : ℕ) × ((Kind.next counting_rng selector).1 ≡ some (addr, tok))
    × (print_response client decimal got ≢ none)
    × ((out : Text)
        → print_response client decimal got ≡ some (ok out)
        → let (status, body) =
            expected (echoing addr (http3_upstream_request request addr payload)) in
          out ≡ shown client decimal status body)
unfolding post handle_http3_request recv_body http3_reply answer http3_upstream_request give_back
    collect_headers Kind.next Kind.release Kind.new_selector LeastConn.next LeastConn.least_loaded
    LeastConn.scan LeastConn.consider LeastConn.new LeastConn.release Counters.new Counters.pick
    Counters.release
print_response-answered_example =
    print_response-answered server takes_all server_Served client decimal client_Carried
      counting_rng echoing request payload fresh posted got arrived answered selector
      (handle_http3_request server takes_all counting_rng echoing request arrived selector).0 refl
      refl refl refl refl refl refl
