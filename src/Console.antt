-- ===== src/Console.antt =====
-- The live console of the desktop app (wing_parser/ui): connection states, the write queue and its
-- gate, the arming, the revert run and the guard of a watch.
pub mod Live
pub mod Queue
pub mod Arm
pub mod Records
pub mod Ledger
pub mod Guard
pub mod Gate
