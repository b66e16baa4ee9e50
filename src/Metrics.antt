-- ===== src/Metrics.antt =====
-- The metrics endpoint: crates/service-proxy/src/tokio_metrics_server.rs. What tokio says of its
-- runtime, the clock and the JSON encoder are arguments; durations are in nanoseconds.
pub mod Answers
use service_proxy.Admin.{Reply, bytes_or_empty, json_reply, simple}
use service_proxy.Config.{unwrap_or}
use service_proxy.Shared.Result.{Result}
use service_proxy.Shared.Text.{Text, codes, ◌=?◌}
use service_proxy.Shared.{
  ℕ, zero, suc, ◌/◌, ◌+◌, Bool, not, ◌||◌, Option, List, [], ◌∷◌, if◌then◌else◌,
}

-- `tokio::runtime::RuntimeMetrics`
pub record RuntimeMetrics : Type 0 where
  pub num_workers : ℕ
  pub worker_local_queue_depth : ℕ → ℕ
  pub worker_park_count : ℕ → ℕ
  pub worker_park_unpark_count : ℕ → ℕ
  pub worker_total_busy_duration : ℕ → ℕ
  pub worker_poll_count : ℕ → ℕ
  pub worker_mean_poll_time : ℕ → ℕ
  pub worker_steal_count : ℕ → ℕ
  pub worker_overflow_count : ℕ → ℕ
  pub worker_noop_count : ℕ → ℕ
  pub worker_local_schedule_count : ℕ → ℕ
  pub num_alive_tasks : ℕ
  pub global_queue_depth : ℕ
  pub remote_schedule_count : ℕ
  pub budget_forced_yield_count : ℕ

pub record WorkerMetrics : Type 0 where
  pub worker : ℕ
  pub local_queue_depth : ℕ
  pub park_count : ℕ
  pub park_unpark_count : ℕ
  pub total_busy_duration_us : ℕ
  pub poll_count : ℕ
  pub mean_poll_time_ns : ℕ
  pub steal_count : ℕ
  pub overflow_count : ℕ
  pub noop_count : ℕ
  pub local_schedule_count : ℕ

pub record RuntimeMetricsSnapshot : Type 0 where
  pub timestamp_ms : ℕ
  pub num_workers : ℕ
  pub num_alive_tasks : ℕ
  pub global_queue_depth : ℕ
  pub remote_schedule_count : ℕ
  pub budget_forced_yield_count : ℕ
  pub workers : List WorkerMetrics

-- The closure of `snapshot`
unfoldable pub worker_metrics : RuntimeMetrics → ℕ → WorkerMetrics
worker_metrics metrics i = record {
  worker = i;
  local_queue_depth = metrics.worker_local_queue_depth i;
  park_count = metrics.worker_park_count i;
  park_unpark_count = metrics.worker_park_unpark_count i;
  total_busy_duration_us = metrics.worker_total_busy_duration i / 1000;
  poll_count = metrics.worker_poll_count i;
  mean_poll_time_ns = metrics.worker_mean_poll_time i;
  steal_count = metrics.worker_steal_count i;
  overflow_count = metrics.worker_overflow_count i;
  noop_count = metrics.worker_noop_count i;
  local_schedule_count = metrics.worker_local_schedule_count i;
}

-- `(i..i + n).map(f).collect()`
abbrev pub map_range {ℓ} : {A : Type ℓ} → (ℕ → A) → ℕ → ℕ → List A
map_range f i zero = []
map_range f i (suc n) = f i ∷ map_range f (suc i) n

-- `snapshot`. The clock gives nothing before the Unix epoch.
unfoldable pub snapshot : Option ℕ → RuntimeMetrics → RuntimeMetricsSnapshot
unfolding worker_metrics
snapshot since_epoch metrics = record {
  timestamp_ms = unwrap_or since_epoch 0 / 1000000;
  num_workers = metrics.num_workers;
  num_alive_tasks = metrics.num_alive_tasks;
  global_queue_depth = metrics.global_queue_depth;
  remote_schedule_count = metrics.remote_schedule_count;
  budget_forced_yield_count = metrics.budget_forced_yield_count;
  workers = map_range (worker_metrics metrics) 0 metrics.num_workers;
}

-- `handle`, with `serde_json::to_vec`.
unfoldable pub handle :
    (RuntimeMetricsSnapshot → Result Text (List ℕ))
    → Option ℕ
    → RuntimeMetrics
    → Text
    → Text
    → Reply
unfolding snapshot simple
handle to_vec since_epoch metrics method path =
    if not (method =? codes "GET") || not (path =? codes "/tokio-metrics")
    then simple 404 (codes "try /tokio-metrics")
    else json_reply (bytes_or_empty (to_vec (snapshot since_epoch metrics)))
