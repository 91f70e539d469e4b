-- ===== src/LoadTest.antt =====
-- web/src/lib/loadTest.ts: the load generator of the dashboard.
pub mod Config
pub mod Request
pub mod Run
pub mod Summary
