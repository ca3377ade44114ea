-- ===== src/Classifier.antt =====
-- wing_parser/classifier: what kind of source a name stands for.
pub mod Matcher
pub mod Resolve
pub mod Vocabulary
