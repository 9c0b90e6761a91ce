-- ===== src/Tests.antt =====
-- The theorems at concrete inputs, and runs of the definitions.
pub mod Providers
pub mod Routing
pub mod Shield
pub mod Events
pub mod Delegation
pub mod Agents
pub mod Channels
pub mod Cron
pub mod Skills
pub mod Memory
pub mod Devices
pub mod Media
pub mod Fallback
