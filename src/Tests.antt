-- ===== src/Tests.antt =====
-- Concrete runs of the modelled code.
pub mod Net
pub mod Balancer
pub mod Pool
pub mod Races
pub mod Dial
pub mod Proxy
pub mod Http
pub mod Workers
pub mod Server
pub mod Smoke
pub mod Profiles
pub mod Http3
