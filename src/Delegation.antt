-- ===== src/Delegation.antt =====
-- pkg/delegation.
pub mod Queue
pub mod Agents
pub mod Lifecycle
