-- ===== src/Core.antt =====
-- The reading of a scene (wing_parser/core).
pub mod Loader
pub mod Validator
