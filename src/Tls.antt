-- ===== src/Tls.antt =====
-- crates/service-proxy/src/quic_proxy/tls.rs: the server configuration for QUIC and HTTP/3. The
-- crates rcgen, rustls and quinn are arguments: how they make a certificate, take it into a
-- configuration, and make that one for QUIC.
use service_proxy.Shared.Result.{Result, ok, ◌>>=◌}
use service_proxy.Shared.Strings.{as_bytes}
use service_proxy.Shared.Text.{Text, codes}
use service_proxy.Shared.{ℕ, ◌-◌, ◌^◌, List, [], ◌∷◌, map}

-- `rustls::ServerConfig`, as far as the program sets it.
pub record TlsConfig (Base : Type 0) : Type 0 where
  pub base : Base
  pub alpn_protocols : List (List ℕ)
  pub max_early_data_size : ℕ

pub record Crates : Type 1 where
  pub CertifiedKey : Type 0
  pub Base : Type 0
  pub Crypto : Type 0
  pub generate_simple_self_signed : List Text → Result Text CertifiedKey
  pub with_single_cert : CertifiedKey → Result Text Base
  pub quic_config : TlsConfig Base → Result Text Crypto

-- `quinn::ServerConfig`
pub record ServerConfig (Crypto : Type 0) : Type 0 where
  pub crypto : Crypto
  pub max_concurrent_bidi_streams : ℕ

-- `generate_self_signed_server_config`
unfoldable pub generate_self_signed_server_config :
    (c : Crates) → List Text → Result Text (ServerConfig c.Crypto)
generate_self_signed_server_config c alpn = do
  certified ← c.generate_simple_self_signed (codes "localhost" ∷ [])
  base ← c.with_single_cert certified
  crypto ←
      c.quic_config (record {
        base = base;
        alpn_protocols = map as_bytes alpn;
        max_early_data_size = 2 ^ 32 - 1;
      })
  ok (record { crypto = crypto; max_concurrent_bidi_streams = 10000 })
