-- ===== src/Exec.antt =====
-- The executor of the launcher, rvs/src/rvsexec.cpp.
pub mod Conf
pub mod Chosen
pub mod Run
pub mod Status
pub mod Zero
pub mod Closed
pub mod Properties
pub mod Selection
pub mod Actions
pub mod Objects
pub mod Reported
pub mod Ran
pub mod Indifferent
pub mod Duration
pub mod Launched
mod Examples
pub mod Sessions
