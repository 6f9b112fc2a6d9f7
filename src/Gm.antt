-- ===== src/Gm.antt =====
-- The module that monitors metrics, gm.so.
pub mod Worker
pub mod Counts
pub mod Rounds
pub mod Blind
pub mod Report
pub mod Reported
pub mod Config
pub mod Bounds
pub mod Checks
pub mod Keys
pub mod Handles
pub mod Action
pub mod Results
pub mod First
mod Examples
mod Scenes
