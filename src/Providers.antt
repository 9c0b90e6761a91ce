-- ===== src/Providers.antt =====
-- pkg/providers.
pub mod Types
pub mod Cooldown
pub mod Classifier
pub mod Fallback
