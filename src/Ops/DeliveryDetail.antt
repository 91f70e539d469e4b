-- ===== src/Ops/DeliveryDetail.antt =====
-- web/src/components/ops/DeliveryDetail.tsx: the panel of one delivery, with its lookup.
pub mod State
pub mod Parts
pub mod Series
pub mod View
pub mod Lookup
pub mod Panel
pub mod Renders
