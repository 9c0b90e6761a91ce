-- ===== src/Shield.antt =====
-- pkg/shield.
pub mod Types
pub mod Text
pub mod Parser
pub mod Matcher
pub mod Engine
pub mod Approval
