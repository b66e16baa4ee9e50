-- ===== src/Http3/InFlight.antt =====
-- `handle_http3_request` of quic_proxy/mod.rs with a selector.
use service_proxy.Balancer.Kind
use service_proxy.Balancer.Rng.{Rng}
use service_proxy.Shared.Result.{Result}
use service_proxy.Shared.Text.{Text}
