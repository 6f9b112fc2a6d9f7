-- ===== src/Pesm.antt =====
-- The module that monitors links and power states, pesm.so.
pub mod Numbered
pub mod Worker
mod Channel
mod Changes
pub mod Action
pub mod Started
mod Examples
