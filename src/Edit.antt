-- ===== src/Edit.antt =====
-- Editing a scene (wing_parser/edit): dotted paths into the document, the journal of patches, and the
-- document with the journal applied.
pub mod Document
pub mod Pointer
pub mod Journal
