-- ===== src/Book.antt =====
-- crates/hft-book/src/lib.rs: the price-time order book of one instrument.
mod Tests
pub mod Level
pub mod LevelIndex
pub mod OrderIndex
pub mod OrderBook
