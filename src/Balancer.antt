-- ===== src/Balancer.antt =====
-- crates/service-proxy/src/upstream/balancer.rs: the load-balancing selectors, one module each.
pub mod Rng
pub mod Counters
pub mod RoundRobin
pub mod LeastConn
pub mod P2c
pub mod Kind
pub mod Races
