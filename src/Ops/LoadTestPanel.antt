-- ===== src/Ops/LoadTestPanel.antt =====
-- web/src/components/ops/LoadTestPanel.tsx: the panel that configures and starts load tests.
pub mod State
pub mod Icon
pub mod Launch
pub mod Fields
pub mod View
pub mod Valid
pub mod Selection
pub mod Storm
pub mod Offers
pub mod Course
