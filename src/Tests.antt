-- ===== src/Tests.antt =====
-- Runs of the model at concrete inputs, where the hypotheses of the theorems hold.
pub mod Data
pub mod Services
pub mod Server
pub mod Intake
pub mod Runs
pub mod Requests
pub mod Client
pub mod Panels
pub mod Views
