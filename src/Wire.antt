-- ===== src/Wire.antt =====
-- crates/hft-wire/src/lib.rs: the fixed-length binary protocol. `Decode` reads frames and `Encode`
-- writes them.
pub mod Decode
pub mod Encode
pub mod Slices
pub mod Parsed
pub mod Fields
pub mod RoundTrip
pub mod Canonical
pub mod Total
mod Tests
