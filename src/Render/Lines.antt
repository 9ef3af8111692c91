-- ===== src/Render/Lines.antt =====
-- The lines that `renderIni` of worker/render.mjs prints.
pub mod Rules
pub mod Groups
pub mod Sections
pub mod Whole
