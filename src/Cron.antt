-- ===== src/Cron.antt =====
-- pkg/cron.
pub mod Service
