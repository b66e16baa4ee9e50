-- ===== src/Dial/RoundTrip.antt =====
-- `read_response` of upstream/dial.rs on what `write_response` writes.
pub mod Lines
pub mod Maps
pub mod Loop
pub mod Cut
pub mod Whole
pub mod Edges
