-- ===== src/Tests/Proxy.antt =====
-- Runs of config.rs, quic_proxy/framing.rs, the handlers and the endpoints for operators.
use service_proxy.Admin.{Format, handle}
use service_proxy.Admin.Queries.{handle-clamped}
use service_proxy.Balancer.Counters.{Counters, UpstreamStat}
use service_proxy.Balancer.Kind
use service_proxy.Balancer.Kind.{SelectorKind, counting_round_robin, lb_least_conn}
use service_proxy.Balancer.Counters
use service_proxy.Balancer.LeastConn
use service_proxy.Config.{pooled, Config, load}
use service_proxy.Config.Settings.{settings, load-settings}
use service_proxy.Dial.Types.{Request, Response, IoError, UpstreamError}
use service_proxy.Framing.{to_be_bytes, read_frame}
use service_proxy.Proxy.{StreamError, io_failed, echo_request, echo_reply, echo, handle_quic_stream}
use service_proxy.Proxy.InFlight.{inflight_of, echo-inflight, handle_quic_stream-inflight}
use service_proxy.Shared.Result.{Result, ok, err}
use service_proxy.Shared.Strings.{trim}
use service_proxy.Shared.Text.{Text, codes}
use service_proxy.Tests.Balancer.{three, one_given, one_given-Reach}
use service_proxy.Tests.Net.{Tape, tape_net, arriving, counting_rng}
use service_proxy.Shared.{
  ℕ, ◌%◌, ◌^◌, length, ◌≡◌, refl, sym, ap, inl, inr, some, List, [], ◌∷◌, ◌++◌, map, arith, ◌≤◌,
  ◌==◌, if◌then◌else◌,
}

abbrev pub payload : List ℕ
payload = 104 ∷ 105 ∷ []

-- A frame of two bytes.
abbrev framed : Tape
framed = record { sent = 0 ∷ 0 ∷ 0 ∷ 2 ∷ 104 ∷ 105 ∷ []; inbox = [] }

pub tape_write_all-sent :
    (bs : List ℕ) (w w' : Tape) → tape_net.write_all bs w ≡ ok w' → w'.sent ≡ w.sent ++ bs
tape_write_all-sent bs w w' e =
    let same : (record w { sent = w.sent ++ bs }) ≡ w' = cc in ap (λ (t : Tape). t.sent) (sym same)

pub tape_flush-sent : (w w' : Tape) → tape_net.flush w ≡ ok w' → w'.sent ≡ w.sent
tape_flush-sent w w' e = let same : w ≡ w' = cc in ap (λ (t : Tape). t.sent) (sym same)

abbrev pub config : Config
config = record {
  listen_addr = codes ":8080";
  upstream_addrs = codes "a:1" ∷ codes "b:2" ∷ [];
  mode = pooled;
  lb_strategy = codes "p2c";
  stats_addr = [];
  pprof_addr = codes ":6060";
  tokio_metrics_addr = [];
  pool_size_per_upstream = 16;
  worker_pool_size = 64;
  worker_queue_depth = 256;
}

load-settings_example : load (settings config) ≡ config
unfolding trim
load-settings_example =
    load-settings config (refl, refl, (refl, refl, tt))
      ((refl, (refl, (refl, tt))), ((refl, (refl, (refl, tt))), tt)) (omega arith) (omega arith)
      (omega arith)

-- A network that answers with the body of the request.
abbrev pub echoing : Text → Request → Result UpstreamError Response
echoing addr req = ok (record { status_code = 200; headers = []; body = req.body })

abbrev pub third_kind : SelectorKind
third_kind = (Kind.next counting_rng (one_given.kind, one_given.gen)).0.0

pub third_next :
    Kind.next counting_rng (one_given.kind, one_given.gen)
    ≡ ((third_kind, 4), some (codes "a:1", 0))
unfolding Kind.next Kind.new_selector Kind.release LeastConn.release Counters.release LeastConn.next
    LeastConn.least_loaded LeastConn.scan LeastConn.consider Counters.pick
third_next = refl

echo-inflight_example :
    (u : SelectorKind) × (echo counting_rng echoing payload (one_given.kind, one_given.gen) ≡ (
      (u, 4),
      some (echo_reply (codes "a:1") (echoing (codes "a:1") (echo_request (codes "a:1") payload))),
    ))
    × (inflight_of u ≡ inflight_of one_given.kind)
echo-inflight_example =
    echo-inflight counting_rng three lb_least_conn 0 (inr (inl refl)) (omega arith) (omega arith)
      one_given-Reach (codes "a:1") 0 third_next echoing payload

abbrev pub finish : Tape → Result StreamError Tape
finish t = ok t

abbrev client : Tape
client = arriving (0 ∷ 0 ∷ 0 ∷ 2 ∷ 104 ∷ 105 ∷ [])

pub finish-sent : (w w' : Tape) → finish w ≡ ok w' → w'.sent ≡ w.sent
finish-sent w w' e = let same : w ≡ w' = cc in ap (λ (t : Tape). t.sent) (sym same)

handle_quic_stream-inflight_example :
    ((e : IoError)
      → read_frame tape_net client ≡ err e
      → handle_quic_stream counting_rng echoing tape_net finish
          (arriving [])
          client
          (one_given.kind, one_given.gen)
        ≡ ((one_given.kind, one_given.gen), some (err (io_failed e))))
    × ((body : List ℕ) (recv' : Tape)
        → read_frame tape_net client ≡ ok (body, recv')
        → (u : SelectorKind) × (out : Result StreamError Tape) × (handle_quic_stream counting_rng
              echoing tape_net finish
              (arriving [])
              client
              (one_given.kind, one_given.gen)
            ≡ ((u, 4), some out))
          × (inflight_of u ≡ inflight_of one_given.kind)
          × ((e : UpstreamError)
              → echoing (codes "a:1") (echo_request (codes "a:1") body) ≡ err e
              → out ≡ ok (arriving []))
          × ((resp : Response) (send' : Tape)
              → echoing (codes "a:1") (echo_request (codes "a:1") body) ≡ ok resp
              → out ≡ ok send'
              → send'.sent ≡ [] ++ (to_be_bytes (length resp.body % 2 ^ 32) ++ resp.body)))
handle_quic_stream-inflight_example =
    handle_quic_stream-inflight counting_rng three lb_least_conn 0 (inr (inl refl)) (omega arith)
      (omega arith) one_given-Reach (codes "a:1") 0 third_next echoing tape_net finish (λ t. t.sent)
      (arriving []) client tape_write_all-sent tape_flush-sent finish-sent

-- An encoder that writes the totals.
abbrev totals : List UpstreamStat → Result Text (List ℕ)
totals stats = ok (map (λ (s : UpstreamStat). s.total) stats)

abbrev busy : Counters
busy = record { addrs = three; total = 5 ∷ 4 ∷ 6 ∷ []; inflight = 2 ∷ 1 ∷ 3 ∷ [] }

abbrev busy_kind : SelectorKind
busy_kind = counting_round_robin (record { counters = busy; counter = 15 })

abbrev query : List Text
query = codes "a=1" ∷ codes "reset=1" ∷ []

-- Collectors that differ for no time at all.
abbrev collects : ℕ → Format → Result Text (List ℕ)
collects n f = ok (n ∷ [])

abbrev collects_not_zero : ℕ → Format → Result Text (List ℕ)
collects_not_zero n f = if n == 0 then err (codes "no time") else ok (n ∷ [])

collects_agree : (n : ℕ) (f : Format) → 1 ≤ n → n ≤ 300 → collects n f ≡ collects_not_zero n f
collects_agree n f lo hi = ground arith

handle-clamped_example :
    handle collects (codes "GET") (codes "/debug/pprof/profile") (some (codes "seconds=0"))
    ≡ handle collects_not_zero
        (codes "GET")
        (codes "/debug/pprof/profile")
        (some (codes "seconds=0"))
handle-clamped_example =
    handle-clamped collects collects_not_zero (codes "GET") (codes "/debug/pprof/profile")
      (some (codes "seconds=0")) collects_agree

-- Two addresses among blanks and commas.
abbrev untidy : Text
untidy = codes " a:1 ,, b:2,"
