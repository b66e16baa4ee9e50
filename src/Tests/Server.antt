-- ===== src/Tests/Server.antt =====
-- Runs of main.rs, of the accept loops and of the endpoints for operators.
use service_proxy.Accept.Inline.{clients, failure, serve_http-spawns}
use service_proxy.Accept.{serve_http}
use service_proxy.Admin.{Format, bytes_or_empty, json_reply, simple, clamp, query_seconds, handle}
use service_proxy.Admin.Profile.{
  Profiler, collect, Collected, profile_path, flamegraph_path, handle-IsSampled,
}
use service_proxy.Balancer.Counters.{Counters}
use service_proxy.Balancer.Kind
use service_proxy.Balancer.Kind.{SelectorKind, lb_p2c}
use service_proxy.Config.{Config, tcp_goroutine}
use service_proxy.Main.{
  Host, pprof, stats, tokio_metrics, Server, normalized, parse_listen_addr, main_with,
}
use service_proxy.Main.Startup.{wanted, services, serving, main-starts, main-refuses}
use service_proxy.Metrics
use service_proxy.Metrics.{RuntimeMetrics, RuntimeMetricsSnapshot, worker_metrics}
use service_proxy.Metrics.Answers.{handle-workers}
use service_proxy.Shared.Result.{Result, ok, err}
use service_proxy.Shared.Strings.{strip_prefix}
use service_proxy.Shared.Text.{Text, codes, ◌=?◌}
use service_proxy.Tests.Balancer.{three}
use service_proxy.Tests.Http.{slow, one_head, incoming}
use service_proxy.Tests.Net.{Tape, tape_net, arriving, counting_rng}
use service_proxy.Tests.Proxy.{config, echoing}
use service_proxy.Tls.{Crates}
use mathlib.Core.Option
use service_proxy.Shared.{
  ◌/◌, ℕ, ◌*◌, ◌<◌, ◌≡◌, ◌≢◌, ◌⊎◌, refl, true, false, none, some, List, [], ◌∷◌, length, get_elem?,
  if◌then◌else◌,
}

-- A system that resolves every address but one.
abbrev host : Host
host = record {
  SocketAddr = Text;
  Listener = Text;
  to_socket_addrs =
      λ s. if s =? codes "0.0.0.0:nine" then err (codes "invalid port value") else ok (s ∷ []);
  bind = λ a. ok a;
}

abbrev crates : Crates
crates = record {
  CertifiedKey = Unit {0};
  Base = Unit {0};
  Crypto = Unit {0};
  generate_simple_self_signed = λ names. ok tt;
  with_single_cert = λ key. ok tt;
  quic_config = λ tls. ok tt;
}

abbrev closed : SelectorKind → Server host crates → Result Text (Unit {0})
closed selector server = err (codes "closed")

abbrev observed : Config
observed = record config { stats_addr = codes ":6061"; tokio_metrics_addr = codes ":6670" }

main-starts_example :
    main_with host crates closed true observed []
    ≡ (services host normalized (wanted host true observed), serving host crates closed observed)
unfolding wanted parse_listen_addr strip_prefix Kind.new_selector Kind.has_stats
main-starts_example =
    main-starts host crates closed true observed normalized (refl, (refl, (refl, tt)))

abbrev misspelt : Config
misspelt = record observed { stats_addr = codes ":nine" }

abbrev selector : SelectorKind
selector = Kind.new_selector misspelt.upstream_addrs misspelt.lb_strategy

main-refuses_example :
    main_with host crates closed true misspelt []
    ≡ (pprof (codes "0.0.0.0:6060") ∷ [], err (codes "invalid port value"))
unfolding wanted parse_listen_addr strip_prefix Kind.new_selector Kind.has_stats
main-refuses_example =
    main-refuses host crates closed true misspelt normalized ((pprof, codes ":6060") ∷ [])
      (λ a. stats a selector) (codes ":nine") ((tokio_metrics, codes ":6670") ∷ [])
      (codes "invalid port value") refl (refl, tt) refl

-- A client, and then no more.
abbrev accepts : List (Result Text Tape)
accepts = ok incoming ∷ ok (arriving []) ∷ err (codes "too many open files") ∷ ok incoming ∷ []

serve_http-spawns_example :
    serve_http tape_net slow one_head counting_rng echoing tcp_goroutine accepts
      (Kind.new_selector three lb_p2c, 0)
    ≡ (
      (Kind.new_selector three lb_p2c, 0),
      some (record { handled = []; spawned = clients accepts; ended = failure accepts }),
    )
serve_http-spawns_example =
    serve_http-spawns tape_net slow one_head counting_rng echoing accepts
      (Kind.new_selector three lb_p2c, 0)

-- Two workers that have parked 3 and 4 times.
abbrev runtime : RuntimeMetrics
runtime = record {
  num_workers = 2;
  worker_local_queue_depth = λ i. 0;
  worker_park_count = λ i. i;
  worker_park_unpark_count = λ i. i;
  worker_total_busy_duration = λ i. 5000;
  worker_poll_count = λ i. 7;
  worker_mean_poll_time = λ i. 700;
  worker_steal_count = λ i. 0;
  worker_overflow_count = λ i. 0;
  worker_noop_count = λ i. 1;
  worker_local_schedule_count = λ i. 2;
  num_alive_tasks = 9;
  global_queue_depth = 0;
  remote_schedule_count = 4;
  budget_forced_yield_count = 0;
}

abbrev to_vec : RuntimeMetricsSnapshot → Result Text (List ℕ)
to_vec shot = ok (shot.num_workers ∷ shot.num_alive_tasks ∷ [])

handle-workers_example :
    ((shot : RuntimeMetricsSnapshot) × (Metrics.handle to_vec
          (some 1000000)
          runtime
          (codes "GET")
          (codes "/tokio-metrics")
        ≡ json_reply (bytes_or_empty (to_vec shot)))
      × (length shot.workers ≡ 2)
      × ((i : ℕ)
          → i < 2
          → get_elem? shot.workers i
            ≡ some (record {
              worker = i;
              local_queue_depth = runtime.worker_local_queue_depth i;
              park_count = runtime.worker_park_count i;
              park_unpark_count = runtime.worker_park_unpark_count i;
              total_busy_duration_us = runtime.worker_total_busy_duration i / 1000;
              poll_count = runtime.worker_poll_count i;
              mean_poll_time_ns = runtime.worker_mean_poll_time i;
              steal_count = runtime.worker_steal_count i;
              overflow_count = runtime.worker_overflow_count i;
              noop_count = runtime.worker_noop_count i;
              local_schedule_count = runtime.worker_local_schedule_count i;
            })))
    × ((method path : Text)
        → (method ≢ codes "GET") ⊎ (path ≢ codes "/tokio-metrics")
        → Metrics.handle to_vec (some 1000000) runtime method path
          ≡ simple 404 (codes "try /tokio-metrics"))
handle-workers_example = handle-workers to_vec (some 1000000) runtime

-- A profiler that draws one byte.
abbrev profiler : Profiler
profiler = record {
  Guard = ℕ;
  Report = ℕ;
  Profile = ℕ;
  build = λ frequency blocked. ok frequency;
  report = λ seconds guard. ok (seconds * guard);
  pprof = λ report. ok report;
  no_samples = λ profile. false;
  encode = λ profile. ok (profile ∷ []);
  flamegraph = λ report. ok (report ∷ []);
}

handle-IsSampled_example :
    ((flamegraph_path ≡ profile_path)
      × Collected profiler none
          (clamp 1 300 30)
          Format.protobuf
          (handle (collect profiler none) (codes "GET") flamegraph_path none).body)
    ⊎ ((flamegraph_path ≡ flamegraph_path)
        × Collected profiler none
            (clamp 1 300 30)
            Format.flamegraph
            (handle (collect profiler none) (codes "GET") flamegraph_path none).body)
unfolding handle collect query_seconds clamp Option.bind
handle-IsSampled_example = handle-IsSampled profiler none (codes "GET") flamegraph_path none refl
