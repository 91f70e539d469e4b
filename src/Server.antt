-- ===== src/Server.antt =====
-- The server, in Go: internal/domain, internal/application, internal/ports, internal/adapters, pkg.
pub mod Failures
pub mod Words
pub mod Schema
pub mod Delivery
pub mod Routing
pub mod Retry
pub mod Breaker
pub mod Ports
pub mod Postgres
pub mod Run
pub mod Dispatch
pub mod Ingest
pub mod Outbox
pub mod Scheduler
pub mod Workers
pub mod Mock
pub mod Http
