-- ===== src/Worker.antt =====
-- backend/crates/worker/src/lib.rs.
pub mod Ranges
pub mod Cursors
pub mod Paging
pub mod Failover
pub mod EvmScan
pub mod BtcScan
pub mod Outcome
pub mod Queue
