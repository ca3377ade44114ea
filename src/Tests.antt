-- ===== src/Tests.antt =====
-- Each main theorem, applied to a concrete input of its component.
pub mod Console
pub mod Edit
pub mod Net
pub mod Desk
pub mod Advisory
pub mod Query
pub mod Protocol
pub mod Log
pub mod Diff
pub mod Vocabulary
pub mod Core
