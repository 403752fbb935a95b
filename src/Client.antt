-- ===== src/Client.antt =====
-- cedar-lean-ffi/src/lean_ffi.rs: the calls of the Lean functions, and what is made of their responses.
pub mod Responses
pub mod Calls
pub mod Outcomes
