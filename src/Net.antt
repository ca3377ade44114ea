-- ===== src/Net.antt =====
-- The OSC side (wing_parser/net).
pub mod Address
pub mod Snapshot
pub mod Client
pub mod Watch
pub mod Values
pub mod Write
pub mod Identity
pub mod Strips
pub mod Codec
pub mod NodeText
pub mod Schema
