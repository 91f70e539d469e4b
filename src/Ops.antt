-- ===== src/Ops.antt =====
-- web/src/components/ops: the components of the dashboard.
pub mod Shared
pub mod TimeSort
pub mod StatusBadge
pub mod ActivityFeed
pub mod PipelineFlow
pub mod StatsBar
pub mod DeliveriesTable
pub mod Header
pub mod Dashboard
pub mod LoadTestPanel
pub mod SendTestForm
pub mod DeliveryDetail
