-- ===== src/Log/Logger.antt =====
-- The logger, src/rvsliblogger.cpp: its static members as a record, with the text on the two
-- streams and in the files. Locks are left out: each operation is one step. A log level is not
-- negative here; the code refuses a negative one as it refuses one above 5.
mod Ops
pub mod Stopped
pub mod JsonList
pub mod ListNested
pub use Ops.{Env, Logger, Ret, zero_ret, minus_one}
unfoldable pub use Ops.{
  write_out, to_file, err, log_ext, json_start_node_create, json_action_start_node_create,
  json_action_end_node_create, json_end_node_create, log_record_create, log_record_flush,
  json_patch_append, init_log_file, terminate, stop, stopping,
}
