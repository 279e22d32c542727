-- ===== src/Tests.antt =====
-- Runs of the definitions and instances of the theorems at concrete inputs.
pub mod Data
pub mod Worker
pub mod Scheduler
pub mod Storage
pub mod Notifier
pub mod Chains
pub mod Providers
pub mod Scans
pub mod Deliveries
pub mod Imports
pub mod ImportTasks
