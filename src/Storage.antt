-- ===== src/Storage.antt =====
-- backend/crates/storage: the statements that keep the state of the system, over lists of rows.
pub mod Addresses
pub mod ScanQueue
pub mod Sql
pub mod Postgres
pub mod ScanJobs
pub mod ScanRuns
pub mod Imports
pub mod Catalog
pub mod ScanTables
pub mod Cursors
pub mod Redaction
pub mod ProviderHealth
pub mod Outbox
pub mod Deliveries
