-- ===== src/Util.antt =====
-- The helpers of src/rvs_util.cpp and include/rvs_util.h on texts and numbers.
pub mod Split
pub mod Number
mod Examples
