-- ===== src/Cli.antt =====
-- The command line interpreter, rvs/src/rvscli.cpp and rvs/include/rvscli.h: the state of
-- `rvs::cli`, its token handlers and `parse`. `argv` and `itoken` are the arguments that are not
-- read yet; `options::opt` is the field `opt`. The link /proc/PID/exe is an argument of `parse`.
mod Grammar
mod Loop
mod OnePass
pub mod Reads
pub mod Correct
pub mod Errors
mod Examples
pub use Grammar.{EContext, eof, value, optionalvalue, command, OptBase}
unfoldable pub use Grammar.{optbase, init_grammar, grammar}
pub use Loop.{Cli, Status, success, failure, Scan, consumed, returned, underflow}
unfoldable pub use Loop.{
  get_token, emit_option, try_command, try_value, try_optionalvalue, scan_token, parse_loop,
  extract_path, parse,
}
