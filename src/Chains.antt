-- ===== src/Chains.antt =====
-- backend/crates/chain-providers: what the chains' answers become.
pub mod Units
pub mod Evm
pub mod Drafts
pub mod Btc
