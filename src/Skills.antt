-- ===== src/Skills.antt =====
-- pkg/skills.
pub mod SearchCache
