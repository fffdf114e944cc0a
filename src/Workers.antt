-- ===== src/Workers.antt =====
-- The background workers of server/oseye/workers.
pub mod Storage
pub mod Correlate
pub mod Rules
