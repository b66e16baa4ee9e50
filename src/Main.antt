-- ===== src/Main.antt =====
-- The start of the program: crates/service-proxy/src/main.rs without the loops of its servers. The
-- addresses that the system resolves and binds, and the servers that run, are arguments.
pub mod Startup
use service_proxy.Balancer.Kind
use service_proxy.Balancer.Kind.{SelectorKind}
use service_proxy.Config
use service_proxy.Config.{
  Mode, tcp_sync, tcp_goroutine, http2, grpc, pooled, quic, http3, Config, Env,
}
use service_proxy.Pool.Manager
use service_proxy.Pool.Manager.{ForwarderKind, dial}
use service_proxy.Shared.Result
use service_proxy.Shared.Result.{Result, ok, err, ok_or}
use service_proxy.Shared.Strings.{is_empty, strip_prefix}
use service_proxy.Shared.Text.{Text, codes}
use service_proxy.Shared.{
  ℕ, Bool, true, false, not, ◌&&◌, Option, none, some, List, [], ◌∷◌, ◌++◌, if◌then◌else◌,
}
use service_proxy.Tls.{Crates, ServerConfig, generate_self_signed_server_config}

-- The system: `to_socket_addrs` and `TcpListener::bind`. An error is its message.
pub record Host : Type 1 where
  pub SocketAddr : Type 0
  pub Listener : Type 0
  pub to_socket_addrs : Text → Result Text (List SocketAddr)
  pub bind : SocketAddr → Result Text Listener

-- A task that `main` spawns.
pub data Service (h : Host) : Type 0 where
  pprof : h.SocketAddr → Service h
  stats : h.SocketAddr → SelectorKind → Service h
  tokio_metrics : h.SocketAddr → Service h

-- The server that `main` waits for.
pub data Server (h : Host) (c : Crates) : Type 0 where
  http_server : h.Listener → Mode → ForwarderKind → Server h c
  http2_server : h.Listener → ForwarderKind → Server h c
  grpc_server : h.Listener → ForwarderKind → Server h c
  pooled_server : h.Listener → ForwarderKind → (depth workers : ℕ) → Server h c
  quic_server : h.SocketAddr → ServerConfig c.Crypto → ForwarderKind → Server h c
  http3_server : h.SocketAddr → ServerConfig c.Crypto → ForwarderKind → Server h c

-- `main` as far as it has run: the tasks it has spawned, in order, and how it ends.
abbrev pub Boot {ℓ} : Host → Type ℓ → Type ℓ
Boot h A = List (Service h) → List (Service h) × Result Text A

abbrev pub resume {ℓ κ} :
    {h : Host} {A : Type ℓ} {B : Type κ}
    → (A → Boot h B)
    → List (Service h)
    → Result Text A
    → List (Service h) × Result Text B
resume f spawned (ok a) = f a spawned
resume f spawned (err e) = (spawned, err e)

infixl 5 ◌>>=◌ ◌>>◌
abbrev pub ◌>>=◌ {ℓ κ} : {h : Host} {A : Type ℓ} {B : Type κ} → Boot h A → (A → Boot h B) → Boot h B
◌>>=◌ m f spawned = resume f (m spawned).0 (m spawned).1

abbrev pub ◌>>◌ {ℓ κ} : {h : Host} {A : Type ℓ} {B : Type κ} → Boot h A → Boot h B → Boot h B
m >> k = m >>= λ _. k

-- `?` on a result.
abbrev pub try {ℓ} : {h : Host} {A : Type ℓ} → Result Text A → Boot h A
try result spawned = (spawned, result)

-- `tokio::spawn`
abbrev pub spawn : {h : Host} → Service h → Boot h (Unit {0})
spawn service spawned = (spawned ++ service ∷ [], ok tt)

-- `next()` on the addresses.
abbrev first {ℓ} : {A : Type ℓ} → List A → Option A
first [] = none
first (x ∷ xs) = some x

abbrev pub normalized : Text → Text
normalized addr = elim (strip_prefix (codes ":") addr) [
  | none ↦ addr
  | some port ↦ codes "0.0.0.0:" ++ port
]

module _ (h : Host) where
  -- `parse_listen_addr`
  unfoldable pub parse_listen_addr : Text → Result Text h.SocketAddr
  parse_listen_addr addr =
      Result.◌>>=◌ (h.to_socket_addrs (normalized addr))
        (λ addrs. ok_or (codes "invalid listen addr") (first addrs))

  -- `bind_tcp`
  unfoldable pub bind_tcp : Text → Result Text h.Listener
  unfolding parse_listen_addr
  bind_tcp addr = Result.◌>>=◌ (parse_listen_addr addr) h.bind

  -- A service that is spawned where `on` holds, at an address that is parsed with `?`.
  unfoldable pub spawn_if : Bool → (h.SocketAddr → Service h) → Text → Boot h (Unit {0})
  unfolding parse_listen_addr
  spawn_if on make text =
      if on then (do addr ← try (parse_listen_addr text); spawn (make addr)) else try (ok tt)

  -- `maybe_spawn_tokio_metrics`, built with `tokio_unstable` or without it, where it only warns.
  unfoldable pub maybe_spawn_tokio_metrics : Bool → Config → Boot h (Unit {0})
  unfolding spawn_if
  maybe_spawn_tokio_metrics tokio_unstable cfg =
      spawn_if (tokio_unstable && not (is_empty cfg.tokio_metrics_addr)) tokio_metrics
        cfg.tokio_metrics_addr

  module _ (c : Crates) (serve : SelectorKind → Server h c → Result Text (Unit {0})) where
    abbrev pub over_pools : Config → ForwarderKind
    over_pools cfg =
        ForwarderKind.pooled (Manager.new cfg.upstream_addrs cfg.pool_size_per_upstream)

    -- `serve_quic_mode`
    unfoldable pub serve_quic_mode : Config → SelectorKind → Result Text (Unit {0})
    unfolding parse_listen_addr generate_self_signed_server_config
    serve_quic_mode cfg selector = Result.◌>>=◌ (parse_listen_addr cfg.listen_addr) (λ addr.
        Result.◌>>=◌ (generate_self_signed_server_config c (codes "service-proxy-quic" ∷ []))
          (λ config. serve selector (quic_server addr config (over_pools cfg))))

    -- `serve_http3_mode`
    unfoldable pub serve_http3_mode : Config → SelectorKind → Result Text (Unit {0})
    unfolding parse_listen_addr generate_self_signed_server_config
    serve_http3_mode cfg selector = Result.◌>>=◌ (parse_listen_addr cfg.listen_addr) (λ addr.
        Result.◌>>=◌ (generate_self_signed_server_config c (codes "h3" ∷ []))
          (λ config. serve selector (http3_server addr config (over_pools cfg))))

    -- The arms of the `match` on the mode that listen on TCP, with the servers they call.
    unfoldable pub tcp_server : Config → Mode → h.Listener → Server h c
    tcp_server cfg http2 ln = http2_server ln dial
    tcp_server cfg grpc ln = grpc_server ln (over_pools cfg)
    tcp_server cfg pooled ln =
        pooled_server ln (over_pools cfg) cfg.worker_queue_depth cfg.worker_pool_size
    tcp_server cfg mode ln = http_server ln mode dial

    unfoldable pub serve_tcp : Config → SelectorKind → Result Text (Unit {0})
    unfolding bind_tcp tcp_server
    serve_tcp cfg selector =
        Result.◌>>=◌ (bind_tcp cfg.listen_addr) (λ ln. serve selector (tcp_server cfg cfg.mode ln))

    -- The `match` on the mode.
    unfoldable pub serve_mode : Config → SelectorKind → Mode → Result Text (Unit {0})
    unfolding serve_quic_mode serve_http3_mode serve_tcp
    serve_mode cfg selector quic = serve_quic_mode cfg selector
    serve_mode cfg selector http3 = serve_http3_mode cfg selector
    serve_mode cfg selector mode = serve_tcp cfg selector

    -- `main`, with a configuration that has been loaded.
    unfoldable pub main_with : Bool → Config → Boot h (Unit {0})
    unfolding spawn_if maybe_spawn_tokio_metrics serve_mode
    main_with tokio_unstable cfg =
        let selector = Kind.new_selector cfg.upstream_addrs cfg.lb_strategy in
        do
          spawn_if (not (is_empty cfg.pprof_addr)) pprof cfg.pprof_addr
          spawn_if (Kind.has_stats selector && not (is_empty cfg.stats_addr))
              (λ addr. stats addr selector) cfg.stats_addr
          maybe_spawn_tokio_metrics tokio_unstable cfg
          try (serve_mode cfg selector cfg.mode)

    -- `main`
    unfoldable pub main : Bool → Env → Boot h (Unit {0})
    unfolding main_with
    main tokio_unstable env = main_with tokio_unstable (Config.load env)
