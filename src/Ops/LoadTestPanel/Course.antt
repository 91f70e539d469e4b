-- ===== src/Ops/LoadTestPanel/Course.antt =====
-- How a run of web/src/components/ops/LoadTestPanel.tsx ends: the panel and the message.
use gocourier.World.{World}
use gocourier.Ops.LoadTestPanel.Launch.{Launch}
