-- ===== src/Advisory.antt =====
-- The advisory layer (wing_parser/advisory): the predicate language, the evaluation of a rule over the
-- targets of a scene, and the choice of the active rules.
pub mod Predicates
pub mod Evaluator
pub mod Targets
pub mod Resolver
