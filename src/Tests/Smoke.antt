-- ===== src/Tests/Smoke.antt =====
-- Runs of handlers side by side, and of the smoke client.
use service_proxy.Balancer.Counters.{Counters}
use service_proxy.Balancer.Counters
use service_proxy.Balancer.Kind
use service_proxy.Balancer.Kind.Serves.{counters_of}
use service_proxy.Balancer.Kind.{SelectorKind, lb_least_conn}
use service_proxy.Balancer.LeastConn
use service_proxy.Framing.{to_be_bytes, read_frame, write_frame}
use service_proxy.Handlers.{
  reading, forwarding, go, arrived, handler_step, System, init, Reach, moves, here, later,
}
use service_proxy.Handlers.InFlight.{forwards, handlers-inflight}
use service_proxy.Proxy.{handle_quic_stream, quic_reply, echo_request, give_back}
use service_proxy.Shared.Result.{ok}
use service_proxy.Shared.Strings.Utf8.{from_utf8_lossy}
use service_proxy.Shared.Text.{Text, codes}
use service_proxy.Smoke.{send_payload, receive_body}
use service_proxy.Smoke.Echoes.{receive_body-echoed}
use service_proxy.Tests.Balancer.{three}
use service_proxy.Tests.Net.{Tape, tape_net, arriving, counting_rng}
use service_proxy.Tests.Proxy.{
  payload, echoing, finish, finish-sent, tape_write_all-sent, tape_flush-sent,
}
use service_proxy.Shared.{
  ℕ, ◌%◌, ◌^◌, ◌<◌, ◌≡◌, refl, inl, inr, some, List, [], ◌∷◌, get_elem?, total, arith,
}

-- Two handlers over three upstreams; the first has read its request and chosen.
abbrev chosen : SelectorKind × ℕ
chosen = (Kind.next counting_rng (Kind.new_selector three lb_least_conn, 0)).0

abbrev one_forwards : System counting_rng
one_forwards = record { selector = chosen; handlers = forwarding (codes "b:2") 1 ∷ reading ∷ [] }

one_forwards-Reach : Reach counting_rng (init counting_rng three lb_least_conn 0 2) one_forwards
unfolding handler_step Kind.next Kind.new_selector LeastConn.next LeastConn.least_loaded
    LeastConn.scan LeastConn.consider LeastConn.new Counters.new Counters.pick
one_forwards-Reach = later (later here (moves 0 arrived refl refl)) (moves 0 go refl refl)

handlers-inflight_example :
    (c : Counters) × (counters_of chosen.0 ≡ some c)
    × ((i : ℕ)
        → i < 3
        → get_elem? c.inflight i ≡ some (total (forwards i) one_forwards.handlers % 2 ^ 64))
handlers-inflight_example =
    handlers-inflight counting_rng three lb_least_conn 0 2 (inr (inl refl)) (omega arith)
      (omega arith) one_forwards-Reach

-- A frame of two bytes, on its way and arrived.
abbrev frame : List ℕ
frame = 0 ∷ 0 ∷ 0 ∷ 2 ∷ 104 ∷ 105 ∷ []

abbrev wrote : Tape
wrote = record { sent = frame; inbox = [] }

abbrev fresh_selector : SelectorKind × ℕ
fresh_selector = (Kind.new_selector three lb_least_conn, 0)

receive_body-echoed_example :
    (addr : Text) × (tok : ℕ) × ((Kind.next counting_rng fresh_selector).1 ≡ some (addr, tok))
    × (receive_body tape_net (arriving frame) ≡ ok (from_utf8_lossy payload))
unfolding send_payload handle_quic_stream quic_reply read_frame write_frame to_be_bytes give_back
    echo_request Kind.next Kind.release Kind.new_selector LeastConn.next LeastConn.least_loaded
    LeastConn.scan LeastConn.consider LeastConn.new LeastConn.release Counters.new Counters.pick
    Counters.release
receive_body-echoed_example =
    receive_body-echoed tape_net finish (λ t. t.sent) tape_write_all-sent tape_flush-sent
      finish-sent counting_rng echoing
      (λ addr. record { status_code = 200; headers = []; body = payload }) payload (arriving [])
      wrote (arriving frame) (arriving []) wrote (arriving frame) fresh_selector
      (handle_quic_stream counting_rng echoing tape_net finish (arriving []) (arriving frame)
        fresh_selector).0
      (omega arith) refl refl refl refl (λ addr. refl) (λ addr. omega arith) refl refl
