-- ===== src/Mem.antt =====
-- The memory tests of the module mem, mem.so/src/rvs_memtest.cpp and rvs_memworker.cpp.
pub mod Device
pub mod Kernels
pub mod Walk
pub mod Host
pub mod Silent
pub mod Cycle
pub mod Sequential
pub mod Worker
mod Examples
