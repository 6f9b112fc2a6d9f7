-- ===== src/Log/Examples.antt =====
-- A JSON log with two records.
use rocm_validation_suite.Prelude.{
  ◌≡◌, refl, Bool, true, false, some, List, [], ◌∷◌, ◌++◌, codes, All, arith,
}
use rocm_validation_suite.Util.Number.{to_string}
use rocm_validation_suite.Log.Node.{
  Node, log_node_int, log_node_string, log_node_rec, min_node, nil, cons, to_json, time_text,
  log_level, rvsindent,
}
use rocm_validation_suite.Log.Node.Nested.{walk, outside, IsClean, to_json_nested}
use rocm_validation_suite.Log.Logger.{
  Env, Logger, stop, json_action_start_node_create, json_action_end_node_create,
}
use rocm_validation_suite.Log.Logger.Stopped.{log, flush, calls, stop_silences}
use rocm_validation_suite.Log.Logger.JsonList.{
  flush_all, IsWriting, json_text, rows, opening, action_list,
}

abbrev record_a : Node
record_a = min_node (codes "a") 1 false (cons (log_node_string (codes "k") (codes "{")) nil)

abbrev record_b : Node
record_b = log_node_rec (codes "b") 2 12 345 (cons (log_node_int (codes "n") true 7) nil)

record_b_runs :
    to_json [] record_b
    ≡ codes "\n{\n  \"loglevel\" : 2,\n  \"time\" : \"    12.345   \",\n  \"n\" : -7\n}"
unfolding to_json to_string time_text
record_b_runs = refl

abbrev both : List Node
both = record_a ∷ record_b ∷ []

both-IsClean : All IsClean both
unfolding IsClean
both-IsClean = omega arith

to_json_nested_example : walk (to_json [] record_a) (outside []) ≡ some (outside [])
to_json_nested_example = to_json_nested [] record_a [] tt both-IsClean.0

abbrev env : Env
env = record { opens = λ p. true; ticks = (1, 2); json_filename = codes "/var/tmp/rvs_1.json" }

abbrev logger : Bool → Logger
logger append = record {
  loglevel_m = 2;
  tojson_m = true;
  append_m = append;
  isfirstrecord_m = true;
  init_module = false;
  isfirstaction_m = true;
  b_stop = false;
  stop_flags = 0;
  b_quiet = false;
  log_file = codes "rvs.log";
  json_log_file = codes "rvs.json";
  cout = [];
  cerr = [];
  files = [];
}

logger-IsWriting : (append : Bool) → IsWriting env 2 (logger append)
logger-IsWriting append = record {
  json = refl;
  running = refl;
  level = refl;
  named = refl;
  opens = refl;
}

action_list_example :
    json_text
      (json_action_end_node_create env (
        flush_all env both
          (json_action_start_node_create env (codes "gst") (codes "stress") (logger false)).0)).0
    ≡ json_text (logger false)
      ++ (opening (codes "stress") true ++ (rows both ++ (rvsindent ++ codes "]")))
unfolding log_level
action_list_example =
    action_list env 2 (codes "gst") (codes "stress") both (logger false) (logger-IsWriting false)
      refl refl (omega arith)

stop_silences_example :
    (calls env (log (codes "late") 1 0 0 ∷ flush record_a ∷ []) (stop env 1 (logger false))).files
    ≡ (logger false).files
stop_silences_example =
    stop_silences env 1 (log (codes "late") 1 0 0 ∷ flush record_a ∷ []) (logger false)
      (omega arith)
