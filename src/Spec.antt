-- ===== src/Spec.antt =====
-- Profile specifications of worker/solver.mjs: validation and canonical form (`normalizeProfileSpec`)
-- and the regions and services that a specification selects (`resolveProfileSpec`).
pub mod Error
pub mod WellFormed
pub mod Services
pub mod Providers
pub mod GroupCatalog
pub mod Groups
pub mod Normalize
pub mod Saved
