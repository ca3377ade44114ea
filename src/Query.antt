-- ===== src/Query.antt =====
-- The questions that wing_parser/query answers about a scene.
pub mod Routing
pub mod Diff
