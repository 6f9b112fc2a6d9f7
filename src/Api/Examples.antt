-- ===== src/Api/Examples.antt =====
-- An application with one session.
use rocm_validation_suite.Prelude.{◌≡◌, refl, true, false, none, some, [], ◌∷◌, codes, find, str_eq}
use rocm_validation_suite.Module.Load.{
  find_create_module, create_with, action_create, action_destroy,
}
use rocm_validation_suite.Util.Number.{to_string}
use rocm_validation_suite.Exec.Run.{pos}
use rocm_validation_suite.Exec.Conf.{option_or}
use rocm_validation_suite.Exec.Properties.{
  commas_to_spaces, set_entry, set_entries, set_parallel, duration_text, set_duration, full,
  is_yaml_properties_collection, do_yaml_properties_collection, do_yaml_properties,
}
use rocm_validation_suite.Exec.Selection.{
  index_of, all_indices, words_from, is_selected, has_index, has_name, selection,
}
use rocm_validation_suite.Exec.Actions.{
  set_sum, cli_properties, destroy_action, finish_action, with_properties, with_action, with_module,
  do_action, do_actions, do_times, end_session, do_yaml, consider, and_then, times,
}
use rocm_validation_suite.Exec.Launched.{do_yaml_file, sts_of}
use rocm_validation_suite.Exec.Sessions.{world, options, two, begun}
use rocm_validation_suite.Api.State.{
  success, ready, inprogress, completed, replace, custom_action, in_progress, complete, RvsSession,
  Rvs, rvs_validate_session, at,
}
use rocm_validation_suite.Api.Requests.{
  Executor, rvs_callback, rvs_callbacks, rvs_session_set_property, set_of_type, set_known,
  options_of, launch, execute_property, rvs_session_execute, initialize, create, set_property,
  execute, destroy, terminate, request, requests, loaded,
}
use rocm_validation_suite.Api.Invariant.{IsConsistent, requests-IsConsistent}
use rocm_validation_suite.Api.Errors.{request_invalid}
use rocm_validation_suite.Api.RunOpt.{
  Place, result_of, results_of, run_status_of, run_with, run_modules_of, choose_source,
  modules_file, run_source, run_opt,
}
use rocm_validation_suite.Api.Completed.{IsIn, execute_completed}
use rocm_validation_suite.Api.Moves.{Moves, request-Moves}

abbrev executor : Executor
executor rows opt = record {
  results = in_progress (codes "half") ∷ complete (codes "done") ∷ [];
  rows = (codes "burn", true) ∷ rows;
  sts = pos 0;
}

requests-IsConsistent_example : IsConsistent (
    requests executor
      (initialize
        ∷ create true (some 5)
        ∷ set_property 1 (some (custom_action (codes "actions:")))
        ∷ execute 1
        ∷ destroy 1
        ∷ terminate
        ∷ [])
      loaded)
requests-IsConsistent_example = requests-IsConsistent executor (
    initialize
    ∷ create true (some 5)
    ∷ set_property 1 (some (custom_action (codes "actions:")))
    ∷ execute 1
    ∷ destroy 1
    ∷ terminate
    ∷ [])

abbrev session_ready : RvsSession
session_ready = record {
  id = 1;
  state = ready;
  callback = some 5;
  property = custom_action (codes "actions:");
  executor = none;
}

abbrev prepared : Rvs
prepared = record { initialized = true; sessions = session_ready ∷ []; delivered = [] }

-- Setting a property of a session that is ready already.
request_invalid_example :
    (request executor (set_property 1 (some (custom_action (codes "other")))) prepared).0 ≡ prepared
unfolding request rvs_session_set_property rvs_validate_session set_of_type set_known at
request_invalid_example =
    request_invalid executor (set_property 1 (some (custom_action (codes "other")))) prepared refl

request-Moves_example : Moves prepared.sessions (request executor (execute 1) prepared).0.sessions
request-Moves_example = request-Moves executor (execute 1) prepared (λ e. cc)

-- The text holds the two actions of the file, and the action reports once.
abbrev place : Place
place = record {
  good = λ file. true;
  pwd = [];
  data_root = [];
  initialize = λ file. some begun.modules;
  load_file = λ file. none;
  load = λ text. some (some two);
  reports = λ name. codes "half" ∷ [];
  closing = λ m. [];
  stopping = false;
}

execution_succeeds : (rvs_session_execute (run_opt world options place) 1 prepared).1 ≡ success
unfolding rvs_session_execute rvs_validate_session at options_of execute_property launch run_opt
    run_source choose_source modules_file run_modules_of run_with run_status_of do_yaml_file sts_of
    do_yaml end_session do_times and_then do_actions consider is_selected selection find str_eq
    do_action with_module option_or action_create find_create_module with_action do_yaml_properties
    set_entries all_indices cli_properties destroy_action finish_action has_index has_name index_of
    set_sum times with_properties do_yaml_properties_collection duration_text full
    is_yaml_properties_collection set_duration set_entry set_parallel action_destroy create_with
    to_string words_from commas_to_spaces
execution_succeeds = refl

execute_completed_example :
    IsIn 1 completed (rvs_session_execute (run_opt world options place) 1 prepared).0
execute_completed_example =
    execute_completed world options place (λ m. refl) 1 prepared execution_succeeds

-- A monitor that still runs reports its end while `module::terminate` stops it.
abbrev monitored : Place
monitored = record place { closing = λ m. in_progress (codes "ended") ∷ [] }

-- Then the session is in progress again, although the execution succeeds.
reopened :
    ((rvs_session_execute (run_opt world options monitored) 1 prepared).1 ≡ success)
    × ((at 0 (rvs_session_execute (run_opt world options monitored) 1 prepared).0.sessions).state
        ≡ inprogress)
unfolding rvs_callbacks rvs_callback replace results_of result_of rvs_session_execute
    rvs_validate_session at options_of execute_property launch run_opt run_source choose_source
    modules_file run_modules_of run_with run_status_of do_yaml_file sts_of do_yaml end_session
    do_times and_then do_actions consider is_selected selection find str_eq do_action with_module
    option_or action_create find_create_module with_action do_yaml_properties set_entries
    all_indices cli_properties destroy_action finish_action has_index has_name index_of set_sum
    times with_properties do_yaml_properties_collection duration_text full
    is_yaml_properties_collection set_duration set_entry set_parallel action_destroy create_with
    to_string words_from commas_to_spaces
reopened = (refl, refl)
