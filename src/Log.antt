-- ===== src/Log.antt =====
-- Logging: the records of the JSON log, src/rvslognode*.cpp and src/rvsminnode.cpp, and the
-- logger, src/rvsliblogger.cpp.
pub mod Node
pub mod Logger
mod Examples
