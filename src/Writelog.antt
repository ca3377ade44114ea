-- ===== src/Writelog.antt =====
-- The write log (wing_parser/writelog).
pub mod Codes
pub mod Entry
pub mod Store
