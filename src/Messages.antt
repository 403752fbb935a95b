-- ===== src/Messages.antt =====
-- cedar-lean-ffi/src/messages.rs: the messages that are sent to Lean.
pub mod Terms
pub mod Requests
pub mod Partial
pub mod Asserts
pub mod Residuals
pub mod PartialRequests
