-- ===== src/Api.antt =====
-- The interface for applications, rvs/src/rvs_interface.cpp.
pub mod State
pub mod Requests
pub mod Slots
pub mod Invariant
pub mod Callbacks
pub mod RunOpt
pub mod Completed
pub mod Errors
pub mod Moves
mod Examples
