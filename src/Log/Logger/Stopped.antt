-- ===== src/Log/Logger/Stopped.antt =====
-- What `Stop` of src/rvsliblogger.cpp does to the files.
use rocm_validation_suite.Prelude.{
  ℕ, suc, ◌≡◌, refl, ◌≢◌, Bool, true, ◌∙◌, List, [], ◌∷◌, Text, arith,
}
use rocm_validation_suite.Log.Node.{Node}
use rocm_validation_suite.Log.Logger.Ops.{
  Env, Logger, to_file, log_ext, json_start_node_create, json_action_start_node_create,
  json_action_end_node_create, json_end_node_create, log_record_flush, terminate, stop,
}

-- The calls by which a module writes to the logs.
pub data Call : Type 0 where
  log : Text → ℕ → ℕ → ℕ → Call
  start_module : Text → Text → Call
  start_action : Text → Text → Call
  flush : Node → Call
  end_action : Call
  end_module : Call
  close_log : Call
  stop_again : ℕ → Call

unfoldable pub call : Env → Call → Logger → Logger
call env (log message level sec usec) l = (log_ext env message level sec usec l).0
call env (start_module name action) l = (json_start_node_create env name action l).0
call env (start_action name action) l = (json_action_start_node_create env name action l).0
call env (flush r) l = (log_record_flush env r l).0
call env end_action l = (json_action_end_node_create env l).0
call env end_module l = (json_end_node_create env l).0
call env close_log l = (terminate env l).0
call env (stop_again flags) l = stop env (suc flags) l

unfoldable pub calls : Env → List Call → Logger → Logger
calls env [] l = l
calls env (c ∷ cs) l = calls env cs (call env c l)

pub record IsStopped (l : Logger) : Type 0 where
  pub stopped : l.b_stop ≡ true
  pub flagged : l.stop_flags ≢ 0

-- A stopped logger's calls write no file, and leave it stopped.
record Silent (l l' : Logger) : Type 0 where
  same : l'.files ≡ l.files
  stays : IsStopped l'

to_file_silent :
    (env : Env) (row : Text) (json_rec : Bool) (l : Logger)
    → IsStopped l
    → (to_file env row json_rec l).0 ≡ l
unfolding to_file
to_file_silent env row json_rec l h = ground arith

call-Silent : (env : Env) (c : Call) (l : Logger) → IsStopped l → Silent l (call env c l)
unfolding call log_ext json_start_node_create json_action_start_node_create
    json_action_end_node_create json_end_node_create log_record_flush terminate stop to_file
call-Silent env (log message level sec usec) l h = record {
  same = ground arith;
  stays = ground arith;
}
call-Silent env (start_module name action) l h = record {
  same = ground arith;
  stays = ground arith;
}
call-Silent env (start_action name action) l h = record {
  same = ground arith;
  stays = ground arith;
}
call-Silent env (flush r) l h = record { same = ground arith; stays = ground arith }
call-Silent env end_action l h = record { same = ground arith; stays = ground arith }
call-Silent env end_module l h = record { same = ground arith; stays = ground arith }
call-Silent env close_log l h = record { same = ground arith; stays = ground arith }
call-Silent env (stop_again flags) l h = record { same = ground arith; stays = ground arith }

calls_silent :
    (env : Env) (cs : List Call) (l : Logger) → IsStopped l → (calls env cs l).files ≡ l.files
unfolding calls
calls_silent env [] l h = refl
calls_silent env (c ∷ cs) l h =
    let now = call-Silent env c l h in calls_silent env cs (call env c l) now.stays ∙ now.same

stop-IsStopped : (env : Env) (flags : ℕ) (l : Logger) → flags ≢ 0 → IsStopped (stop env flags l)
unfolding stop terminate to_file
stop-IsStopped env flags l h = ground arith

files-stop : (env : Env) (flags : ℕ) (l : Logger) → flags ≢ 0 → (stop env flags l).files ≡ l.files
unfolding stop terminate to_file
files-stop env flags l h = ground arith

-- From a `Stop` with flags that are not 0 on, no file changes, whatever is logged after it. The
-- `Stop` itself changes none either, so the end of the log file that `terminate` is called for is
-- not written.
pub stop_silences :
    (env : Env) (flags : ℕ) (cs : List Call) (l : Logger)
    → flags ≢ 0
    → (calls env cs (stop env flags l)).files ≡ l.files
stop_silences env flags cs l h =
    calls_silent env cs (stop env flags l) (stop-IsStopped env flags l h) ∙ files-stop env flags l h
