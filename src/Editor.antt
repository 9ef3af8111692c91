-- ===== src/Editor.antt =====
-- The state of the profile editor in the browser: public/editor-state.mjs.
pub mod Draft
pub mod Fingerprint
pub mod State
pub mod ServiceGroups
pub mod History
