-- ===== src/Notifier.antt =====
-- backend/crates/notifier: from an event to the deliveries of its notifications.
pub mod Amounts
pub mod Rules
pub mod Batch
pub mod Channels
