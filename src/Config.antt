-- ===== src/Config.antt =====
-- crates/service-proxy/src/config.rs: the settings, read from environment variables. The
-- environment is a function: `env::var` gives nothing for a variable that is not set.
pub mod Settings
pub mod Clean
use service_proxy.Shared.Strings.{is_empty, trim, split, parse_uint}
use service_proxy.Shared.Text.{Text, codes, ◌=?◌}
use service_proxy.Shared.{ℕ, ◌^◌, Option, none, some, List, [], ◌∷◌, if◌then◌else◌}
use mathlib.Core.Option

pub data Mode : Type 0 where
  tcp_sync : Mode
  tcp_goroutine : Mode
  http2 : Mode
  grpc : Mode
  pooled : Mode
  quic : Mode
  http3 : Mode

-- `Mode::parse`
unfoldable pub parse : Text → Mode
parse s =
    if s =? codes "tcp-goroutine"
    then tcp_goroutine
    else if s =? codes "http2"
    then http2
    else if s =? codes "grpc"
    then grpc
    else if s =? codes "pooled"
    then pooled
    else if s =? codes "quic"
    then quic
    else if s =? codes "http3"
    then http3
    else tcp_sync

-- `Mode::as_str`
unfoldable pub as_str : Mode → Text
as_str tcp_sync = codes "tcp-sync"
as_str tcp_goroutine = codes "tcp-goroutine"
as_str http2 = codes "http2"
as_str grpc = codes "grpc"
as_str pooled = codes "pooled"
as_str quic = codes "quic"
as_str http3 = codes "http3"

pub record Config : Type 0 where
  pub listen_addr : Text
  pub upstream_addrs : List Text
  pub mode : Mode
  pub lb_strategy : Text
  pub stats_addr : Text
  pub pprof_addr : Text
  pub tokio_metrics_addr : Text
  pub pool_size_per_upstream : ℕ
  pub worker_pool_size : ℕ
  pub worker_queue_depth : ℕ

abbrev pub Env : Type 0
Env = Text → Option Text

-- `unwrap_or`
abbrev pub unwrap_or {ℓ} : {A : Type ℓ} → Option A → A → A
unwrap_or none default = default
unwrap_or (some v) default = v

unfoldable pub env_or : Env → Text → Text → Text
env_or env key default = unwrap_or (env key) default

unfoldable pub env_int : Env → Text → ℕ → ℕ
env_int env key default = unwrap_or (Option.bind (env key) (parse_uint (2 ^ 64))) default

-- The pieces trimmed, without the empty ones.
abbrev pub trimmed : List Text → List Text
trimmed [] = []
trimmed (p ∷ ps) = let rest = trimmed ps in if is_empty (trim p) then rest else trim p ∷ rest

unfoldable pub split_addrs : Text → List Text
split_addrs s = trimmed (split 44 s)

-- `Config::load`
unfoldable pub load : Env → Config
unfolding parse env_or env_int split_addrs
load env = record {
  listen_addr = env_or env (codes "LISTEN_ADDR") (codes ":8080");
  upstream_addrs = split_addrs (
      env_or env (codes "UPSTREAM_ADDRS")
        (env_or env (codes "UPSTREAM_ADDR") (codes "upstream:9000")));
  mode = parse (env_or env (codes "PROXY_MODE") (codes "tcp-sync"));
  lb_strategy = unwrap_or (env (codes "LB_STRATEGY")) [];
  stats_addr = unwrap_or (env (codes "STATS_ADDR")) [];
  pprof_addr = unwrap_or (env (codes "PPROF_ADDR")) [];
  tokio_metrics_addr = unwrap_or (env (codes "TOKIO_METRICS_ADDR")) [];
  pool_size_per_upstream = env_int env (codes "POOL_SIZE_PER_UPSTREAM") 16;
  worker_pool_size = env_int env (codes "WORKER_POOL_SIZE") 64;
  worker_queue_depth = env_int env (codes "WORKER_QUEUE_DEPTH") 256;
}
