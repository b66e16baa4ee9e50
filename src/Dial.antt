-- ===== src/Dial.antt =====
-- crates/service-proxy/src/upstream/dial.rs: HTTP/1.1 requests and responses over a connection.
pub mod Types
pub mod Io
pub mod Wire
pub mod RoundTrip
pub mod Total
