-- ===== src/Module.antt =====
-- The module loader of the launcher, rvs/src/rvsmodule.cpp.
pub mod Load
pub mod Interfaces
pub mod Ready
pub mod Outcome
pub mod Loaded
pub mod Config
pub mod Requests
pub mod Made
mod Examples
