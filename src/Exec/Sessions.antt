-- ===== src/Exec/Sessions.antt =====
-- The loop over the actions at a concrete file with two actions.
use rocm_validation_suite.Prelude.{
  ap, ◌≡◌, refl, ◌*◌, ◌%◌, ◌^◌, ◌++◌, true, false, none, some, List, [], ◌∷◌, Text, codes, Map,
  find, str_eq, map, if◌then◌else◌,
}
use rocm_validation_suite.Util.Number.{to_string}
use rocm_validation_suite.Action.{Action}
use rocm_validation_suite.Action.Keys.{read_duration}
use rocm_validation_suite.Module.Load.{
  Host, find_create_module, create_with, action_create, action_destroy,
}
use rocm_validation_suite.Exec.Run.{
  pos, negsuc, Calls, run, run_modules, run_actions, run_yaml, final_status, is_given, read_options,
  read_d, read_n, read_t, modules_config,
}
use rocm_validation_suite.Exec.Conf.{option_or, choose_conf}
use rocm_validation_suite.Exec.Launched.{
  Files, IsPerformed, with_yaml, do_yaml_file, sts_of, run-IsPerformed,
}
use rocm_validation_suite.Exec.Properties.{
  commas_to_spaces, Entry, Numbers, set_entry, set_entries, set_parallel, duration_text,
  set_duration, full, is_yaml_properties_collection, do_yaml_properties_collection,
  do_yaml_properties,
}
use rocm_validation_suite.Exec.Selection.{
  index_of, all_indices, words_from, is_selected, has_index, has_name, selection,
}
use rocm_validation_suite.Exec.Actions.{
  ActionNode, World, Session, returned, set_sum, cli_properties, destroy_action, finish_action,
  with_properties, with_action, with_module, do_action, do_actions, do_times, end_session, do_yaml,
  consider, and_then, times,
}
use rocm_validation_suite.Exec.Objects.{alive, is_thrown, do_yaml_objects}
use rocm_validation_suite.Exec.Reported.{IsReported, verdicts}
use rocm_validation_suite.Exec.Ran.{chosen, repeated, do_yaml_runs}
use rocm_validation_suite.Exec.Indifferent.{with_status, do_yaml_indifferent}
use rocm_validation_suite.Exec.Duration.{set_all, duration_reaches}

abbrev host : Host
host = record {
  library = record {
    has_symbol = λ h s. true;
    has_interface = λ h i. true;
    module_init = λ h. 0;
    can_create = λ h. true;
    action_destroy = λ h a. 0;
  };
  dlopen = λ path. none;
  dlerror = [];
  pwd = none;
  modules_lib_dir = [];
}

abbrev numbers : Numbers
numbers = record {
  stoull = λ s. if str_eq s (codes "20") then some 20 else none;
  smi_num_devices = 2;
}

-- The action fails.
abbrev pub world : World
world = record {
  host = host;
  numbers = numbers;
  stoi = λ s. if str_eq s (codes "1") then some (pos 1, 1) else none;
  set_status = λ plib kv. 0;
  run_status = λ plib calls. negsuc 4;
  stopping = λ poll. false;
}

abbrev node : List Entry
node =
    record { key = codes "name"; text = some (codes "burn"); children = [] }
    ∷ record { key = codes "duration"; text = some (codes "500"); children = [] }
    ∷ []

abbrev pub two : List ActionNode
two =
    record { name = some (codes "warm"); module_name = none; entries = [] }
    ∷ record { name = some (codes "burn"); module_name = some (codes "gst"); entries = node }
    ∷ []

abbrev pub options : Map Text
options = (codes "-s", codes "1") ∷ (codes "-t", codes "20") ∷ []

abbrev pub begun : Session
begun = record {
  modules = record {
    modulemap = (codes "gst", record { name = codes "gst"; psolib = 7; ifmap = 0 ∷ 1 ∷ [] }) ∷ [];
    filemap = [];
    errors = [];
    live = [];
    actions = 0;
  };
  polls = 0;
  trace = [];
  action_details = [];
}

session_ends : (do_yaml world options (some two) (pos 2) begun).1 ≡ returned (pos 0)
unfolding do_yaml end_session do_times and_then do_actions consider is_selected selection find
    str_eq do_action with_module option_or action_create find_create_module with_action
    do_yaml_properties set_entries all_indices cli_properties destroy_action finish_action has_index
    has_name index_of set_sum times with_properties do_yaml_properties_collection duration_text full
    is_yaml_properties_collection set_duration set_entry set_parallel action_destroy create_with
    to_string words_from commas_to_spaces
session_ends = refl

begun-IsReported : IsReported begun
unfolding verdicts
begun-IsReported = refl

do_yaml_objects_example :
    alive [] (do_yaml world options (some two) (pos 2) begun).0.trace ≡ alive [] begun.trace
do_yaml_objects_example =
    do_yaml_objects world options (some two) (pos 2) begun (ap is_thrown session_ends)

burnt_twice :
    repeated
      (times world options (pos 2))
      (chosen (selection world.stoi (find (codes "-s") options)) 0 two)
    ≡ (codes "burn" ∷ codes "burn" ∷ [])
unfolding repeated times chosen selection find str_eq is_selected has_name has_index all_indices
    index_of words_from commas_to_spaces
burnt_twice = refl

do_yaml_runs_example :
    map (λ row. row.0) (verdicts (do_yaml world options (some two) (pos 2) begun).0.trace)
    ≡ map (λ row. row.0) (verdicts begun.trace)
      ++ repeated
          (times world options (pos 2))
          (chosen (selection world.stoi (find (codes "-s") options)) 0 two)
do_yaml_runs_example = do_yaml_runs world options two (pos 2) begun begun-IsReported session_ends

do_yaml_indifferent_example :
    (do_yaml world options (some two) (pos 2) begun).1
    ≡ (do_yaml (with_status (λ plib calls. pos 0) world) options (some two) (pos 2) begun).1
do_yaml_indifferent_example =
    do_yaml_indifferent world options (λ plib calls. pos 0) (some two) (pos 2) begun

abbrev gst : Action
gst = record {
  action_name = codes "burn";
  module_name = codes "gst";
  property_device_id = 0;
  property_device_index = [];
  property_device_index_all = true;
  property_device = [];
  property_device_all = true;
  property_parallel = false;
  property_count = 0;
  property_wait = 0;
  property_duration = 0;
  property_log_interval = 0;
  bjson = false;
  property = [];
  messages = [];
}

abbrev node_calls : List (Text × Text)
node_calls =
    (codes "name", codes "burn")
    ∷ (codes "duration", codes "500")
    ∷ (codes "duration", codes "20000")
    ∷ []

duration_reaches_example :
    ((read_duration (set_all (node_calls ++ cli_properties options) gst, true)).0.property_duration
      ≡ 20 * 1000 % 2 ^ 64)
    × ((read_duration (set_all (node_calls ++ cli_properties options) gst, true)).1 ≡ true)
unfolding do_yaml_properties find str_eq set_entries set_entry is_yaml_properties_collection
    set_parallel set_duration duration_text full to_string
duration_reaches_example =
    duration_reaches numbers options (codes "gst") node node_calls 0 20 (codes "20") gst true refl
      refl refl

-- Only the file my.conf can be read, and it lists the two actions.
abbrev calls : Calls
calls = record {
  site = record { good = λ file. str_eq file (codes "my.conf"); gpu_name = [] };
  stoi = λ val. some (pos 2);
  stoll = λ val. some (pos 20);
  modules_read = λ file. true;
  log_opened = true;
  gpu_list = pos 0;
  what = [];
  do_yaml = λ file times. none;
  stopping = false;
}

abbrev files : Files
files = λ file. if str_eq file (codes "my.conf") then some (some two) else none

abbrev with_file : Map Text
with_file = (codes "-c", codes "my.conf") ∷ (codes "-n", codes "2") ∷ options

run_ends : (run (with_yaml world with_file files begun calls) with_file).0 ≡ pos 0
unfolding run run_modules run_actions run_yaml final_status is_given read_options choose_conf read_d
    read_n read_t modules_config do_yaml_file sts_of do_yaml end_session do_times and_then
    do_actions consider is_selected selection find str_eq do_action with_module option_or
    action_create find_create_module with_action do_yaml_properties set_entries all_indices
    cli_properties destroy_action finish_action has_index has_name index_of set_sum times
    with_properties do_yaml_properties_collection duration_text full is_yaml_properties_collection
    set_duration set_entry set_parallel action_destroy create_with to_string words_from
    commas_to_spaces
run_ends = refl

run-IsPerformed_example : IsPerformed world with_file files begun calls
unfolding find str_eq is_given
run-IsPerformed_example =
    run-IsPerformed world with_file files begun calls refl refl refl refl begun-IsReported run_ends
