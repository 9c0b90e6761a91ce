-- ===== src/Routing.antt =====
-- pkg/routing.
pub mod Keys
pub mod Route
pub mod Tier
