-- ===== src/Datatypes.antt =====
-- cedar-lean-ffi/src/datatypes.rs: the data that Rust and Lean exchange, and the conversions of it.
pub mod Crate
pub mod Symcc
pub mod Ffi
pub mod Types
pub mod Ops
pub mod Prims
pub mod Terms
pub mod Sharing
pub mod Panics
pub mod Numerals
pub mod Values
pub mod Counterexamples
pub mod Residuals
pub mod Pst
pub mod Convert
