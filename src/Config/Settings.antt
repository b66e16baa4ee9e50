-- ===== src/Config/Settings.antt =====
-- The settings of config.rs and the environment that spells them out.
use service_proxy.Config.{
  Mode, tcp_sync, tcp_goroutine, http2, grpc, pooled, quic, http3, parse, as_str, Config, Env,
  env_int, trimmed, split_addrs, load,
}
use service_proxy.Shared.Strings.{is_empty, trim, split, decimal}
use service_proxy.Shared.Strings.Decimal.{parse_uint-decimal}
use service_proxy.Shared.Strings.Trim.{IsTrimmed}
use service_proxy.Shared.Strings.Words.{join, AllFree, split-join}
use service_proxy.Shared.Text.{Text, codes, ◌=?◌}
use service_proxy.Shared.{
  ℕ, ◌^◌, ◌<◌, ◌≡◌, refl, ap, false, none, some, List, [], ◌∷◌, if◌then◌else◌, ◌∙◌,
}
use mathlib.Core.Option

-- An address that a list can hold: not empty and with no white space at its ends.
abbrev pub Addresses : List Text → Type 0
Addresses [] = Unit {0}
Addresses (a ∷ rest) = (is_empty a ≡ false) × IsTrimmed a × Addresses rest

trimmed-Addresses : (addrs : List Text) → Addresses addrs → trimmed addrs ≡ addrs
trimmed-Addresses [] h = refl
trimmed-Addresses (a ∷ rest) h = rw (h.1, h.0, trimmed-Addresses rest h.2)

-- A list of addresses that are not empty, have no comma and no white space at their ends is read
-- back from the text with commas between them.
pub split_addrs-join :
    (addrs : List Text) → Addresses addrs → AllFree 44 addrs → split_addrs (join 44 addrs) ≡ addrs
unfolding split_addrs join split trim
split_addrs-join [] h free = refl
split_addrs-join (a ∷ rest) h free =
    ap trimmed (split-join 44 a rest free) ∙ trimmed-Addresses (a ∷ rest) h

-- The name of a mode is parsed as that mode.
pub parse-as_str : (m : Mode) → parse (as_str m) ≡ m
unfolding parse as_str
parse-as_str tcp_sync = refl
parse-as_str tcp_goroutine = refl
parse-as_str http2 = refl
parse-as_str grpc = refl
parse-as_str pooled = refl
parse-as_str quic = refl
parse-as_str http3 = refl

-- The environment that spells a configuration out.
unfoldable pub settings : Config → Env
settings c key =
    if key =? codes "LISTEN_ADDR"
    then some c.listen_addr
    else if key =? codes "UPSTREAM_ADDRS"
    then some (join 44 c.upstream_addrs)
    else if key =? codes "PROXY_MODE"
    then some (as_str c.mode)
    else if key =? codes "LB_STRATEGY"
    then some c.lb_strategy
    else if key =? codes "STATS_ADDR"
    then some c.stats_addr
    else if key =? codes "PPROF_ADDR"
    then some c.pprof_addr
    else if key =? codes "TOKIO_METRICS_ADDR"
    then some c.tokio_metrics_addr
    else if key =? codes "POOL_SIZE_PER_UPSTREAM"
    then some (decimal c.pool_size_per_upstream)
    else if key =? codes "WORKER_POOL_SIZE"
    then some (decimal c.worker_pool_size)
    else if key =? codes "WORKER_QUEUE_DEPTH"
    then some (decimal c.worker_queue_depth)
    else none

env_int-decimal :
    (env : Env) (key : Text) (default n : ℕ)
    → n < 2 ^ 64
    → env key ≡ some (decimal n)
    → env_int env key default ≡ n
unfolding env_int Option.bind
env_int-decimal env key default n h e = rw (e, parse_uint-decimal (2 ^ 64) n h)

-- Every configuration whose addresses are not empty and have no comma and no white
-- space at their ends, and whose numbers are below 2 ^ 64 is what
-- `load` reads from the environment that spells it out.
pub load-settings :
    (c : Config)
    → Addresses c.upstream_addrs
    → AllFree 44 c.upstream_addrs
    → c.pool_size_per_upstream < 2 ^ 64
    → c.worker_pool_size < 2 ^ 64
    → c.worker_queue_depth < 2 ^ 64
    → load (settings c) ≡ c
unfolding load settings join
load-settings c addrs free pools workers depth = rw (
  split_addrs-join c.upstream_addrs addrs free,
  parse-as_str c.mode,
  env_int-decimal (settings c) (codes "POOL_SIZE_PER_UPSTREAM") 16 c.pool_size_per_upstream pools
      refl,
  env_int-decimal (settings c) (codes "WORKER_POOL_SIZE") 64 c.worker_pool_size workers refl,
  env_int-decimal (settings c) (codes "WORKER_QUEUE_DEPTH") 256 c.worker_queue_depth depth refl,
)
