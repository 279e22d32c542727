-- ===== src/Core.antt =====
-- backend/crates/core: the errors and the rows that the other crates share.
pub mod Error
pub mod Action
pub mod Clock
pub mod Machine
pub mod Models
