-- ===== src/Metrics/Answers.antt =====
-- What the metrics endpoint of tokio_metrics_server.rs answers.
use service_proxy.Admin.{bytes_or_empty, json_reply, simple}
use service_proxy.Metrics.{
  RuntimeMetrics, RuntimeMetricsSnapshot, worker_metrics, map_range, snapshot, handle,
}
use service_proxy.Shared.Result.{Result}
use service_proxy.Shared.Text.{Text, codes, ◌=?◌, =?_sound}
use service_proxy.Shared.{
  ℕ, zero, suc, ◌+◌, ◌/◌, ◌<◌, ◌≡◌, ◌≢◌, refl, ap, ◌∙◌, ◌⊎◌, inl, inr, false, Option, some, List,
  length, get_elem?, arith, Bool-cases,
}

map_range-at {ℓ} :
    {A : Type ℓ} (f : ℕ → A) (i n j : ℕ) → j < n → get_elem? (map_range f i n) j ≡ some (f (i + j))
map_range-at f i zero j h = elim h [ ]
map_range-at f i (suc n) zero h = ap (λ k. some (f k)) (omega arith)
map_range-at f i (suc n) (suc j) h =
    map_range-at f (suc i) n j (omega arith) ∙ ap (λ k. some (f k)) (omega arith)

length-map_range {ℓ} : {A : Type ℓ} (f : ℕ → A) (i n : ℕ) → length (map_range f i n) ≡ n
length-map_range f i zero = refl
length-map_range f i (suc n) = ap suc (length-map_range f (suc i) n)

other : (a b : Text) → a ≢ b → (a =? b) ≡ false
other a b h = elim (Bool-cases (a =? b)) [
  | inl same ↦ absurd (h (=?_sound a b same))
  | inr apart ↦ apart
]

-- `GET /tokio-metrics` is answered with the encoding of a snapshot that has one entry for each worker
-- of the runtime, the one at `i` with the number `i` and each of the values that the runtime has of worker `i`, its busy
-- time in microseconds; every other method
-- or path is answered with status 404 and says nothing of the runtime.
pub handle-workers :
    (to_vec : RuntimeMetricsSnapshot → Result Text (List ℕ)) (since_epoch : Option ℕ)
    (metrics : RuntimeMetrics)
    → ((shot : RuntimeMetricsSnapshot) × (handle to_vec since_epoch metrics
            (codes "GET")
            (codes "/tokio-metrics")
          ≡ json_reply (bytes_or_empty (to_vec shot)))
        × (length shot.workers ≡ metrics.num_workers)
        × ((i : ℕ)
            → i < metrics.num_workers
            → get_elem? shot.workers i
              ≡ some (record {
                worker = i;
                local_queue_depth = metrics.worker_local_queue_depth i;
                park_count = metrics.worker_park_count i;
                park_unpark_count = metrics.worker_park_unpark_count i;
                total_busy_duration_us = metrics.worker_total_busy_duration i / 1000;
                poll_count = metrics.worker_poll_count i;
                mean_poll_time_ns = metrics.worker_mean_poll_time i;
                steal_count = metrics.worker_steal_count i;
                overflow_count = metrics.worker_overflow_count i;
                noop_count = metrics.worker_noop_count i;
                local_schedule_count = metrics.worker_local_schedule_count i;
              })))
      × ((method path : Text)
          → (method ≢ codes "GET") ⊎ (path ≢ codes "/tokio-metrics")
          → handle to_vec since_epoch metrics method path ≡ simple 404 (codes "try /tokio-metrics"))
unfolding handle snapshot worker_metrics
handle-workers to_vec since_epoch metrics = (
  (
    snapshot since_epoch metrics,
    refl,
    length-map_range (worker_metrics metrics) 0 metrics.num_workers,
    λ i h.
        map_range-at (worker_metrics metrics) 0 metrics.num_workers i h
        ∙ ap (λ k. some (worker_metrics metrics k)) (omega arith),
  ),
  refused,
)
  where
    refused :
        (method path : Text)
        → (method ≢ codes "GET") ⊎ (path ≢ codes "/tokio-metrics")
        → handle to_vec since_epoch metrics method path ≡ simple 404 (codes "try /tokio-metrics")
    refused method path (inl h) = rw (other method (codes "GET") h) refl
    refused method path (inr h) = elim (Bool-cases (method =? codes "GET")) [
      | inl get ↦ rw (get, other path (codes "/tokio-metrics") h) refl
      | inr post ↦ rw post refl
    ]
