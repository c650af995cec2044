-- ===== src/Risk.antt =====
-- crates/hft-risk/src/lib.rs: pre-trade risk. `Index` is the open-addressed index, `Accounts` the
-- records and limit checks, `Engine` the operations on the whole state.
pub mod Index
pub mod Accounts
pub mod Limits
pub mod Exposure
pub mod Engine
mod Tests
