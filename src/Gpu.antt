-- ===== src/Gpu.antt =====
-- The table of GPUs, src/gpu_util.cpp, and the selection of GPUs, src/rvs_util.cpp.
pub mod Table
pub mod Initialize
pub mod Filled
pub mod Select
mod Examples
