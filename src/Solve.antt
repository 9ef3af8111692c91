-- ===== src/Solve.antt =====
-- The INI plan solver of worker/solver.mjs, as far as it is modelled.
pub mod Candidates
pub mod CustomRules
pub mod Filters
pub mod Names
pub mod ServiceGroups
pub mod Layout
pub mod Rewrite
pub mod Subconverter
