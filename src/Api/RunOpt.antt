-- ===== src/Api/RunOpt.antt =====
-- `rvs::exec::run(opt)` of rvs/src/rvsexec.cpp, the executor of a session, with the `do_yaml` of
-- rvs/src/rvsexec_do_yaml.cpp and the callbacks that carry the results.
use rocm_validation_suite.Prelude.{
  zero, suc, Bool, Option, none, some, List, [], ◌∷◌, ◌++◌, Text, codes, Map, find, if◌then◌else◌,
  map,
}
use rocm_validation_suite.Module.Load.{Modules}
use rocm_validation_suite.Exec.Run.{ℤ, pos, negsuc}
use rocm_validation_suite.Exec.Actions.{
  World, Session, Happening, created, destroyed, ran, called_back,
}
use rocm_validation_suite.Exec.Launched.{Files, do_yaml_file, sts_of}
use rocm_validation_suite.Api.State.{Result, in_progress, complete}
use rocm_validation_suite.Api.Requests.{Ran, Executor}

-- What is called: which files can be read, the two texts for paths, `module::initialize`, what
-- yaml-cpp reads of a file and of a text, what an action reports while it runs, what the modules in
-- the map still pass on after `do_yaml` until `module::terminate` has ended them (a monitor that
-- runs passes its end on then), and the last question whether to stop.
pub record Place : Type 0 where
  pub good : Text → Bool
  pub pwd : Text
  pub data_root : Text
  pub initialize : Text → Option Modules
  pub load_file : Files
  pub load : Files
  pub reports : Text → List Text
  pub closing : Modules → List Result
  pub stopping : Bool

-- `YAML_FILE` and `YAML_STRING`
pub data Source : Type 0 where
  yaml_file yaml_string : Text → Source

unfoldable pub module_config_file : Map Text
module_config_file =
    (codes "babel", codes "babel.conf")
    ∷ (codes "gpup", codes "gpup_single.conf")
    ∷ (codes "gst", codes "gst_single.conf")
    ∷ (codes "iet", codes "iet_single.conf")
    ∷ (codes "mem", codes "mem.conf")
    ∷ (codes "pebb", codes "pebb_single.conf")
    ∷ (codes "peqt", codes "peqt_single.conf")
    ∷ (codes "pesm", codes "pesm_1.conf")
    ∷ (codes "pbqt", codes "pbqt_single.conf")
    ∷ (codes "rcqt", codes "rcqt_single.conf")
    ∷ (codes "smqt", codes "smqt_single.conf")
    ∷ []

unfoldable pub result_of : (Text → List Text) → Happening → List Result
result_of reports (created plib) = []
result_of reports (destroyed plib) = []
result_of reports (ran name sts) = map in_progress (reports name)
result_of reports (called_back log) = complete log ∷ []

unfoldable pub results_of : (Text → List Text) → List Happening → List Result
unfolding result_of
results_of reports [] = []
results_of reports (h ∷ hs) = result_of reports h ++ results_of reports hs

module _ (w : World) (global : Map Text) (p : Place) where
  -- The path that is used from then on, with the file.
  unfoldable pub find_module_conf : Text → Text × Text
  find_module_conf name =
      let installed = p.pwd ++ (codes "../share/rocm-validation-suite/conf/" ++ name) in
      let old = p.pwd ++ (codes "conf/" ++ name) in
      if p.good installed
      then (p.pwd, installed)
      else if p.good old
      then (p.pwd, old)
      else (p.data_root, p.data_root ++ (codes "/conf/" ++ name))

  module_conf_of : Option Text → Option (Text × Source)
  unfolding find_module_conf
  module_conf_of none = none
  module_conf_of (some name) = let r = find_module_conf name in some (r.0, yaml_file r.1)

  yaml_of : Option Text → Option (Text × Source)
  yaml_of none = none
  yaml_of (some config) = some (p.pwd, yaml_string config)

  -- `none` for an unknown module and for no option, where the source reads what is not set.
  unfoldable pub choose_source : Map Text → Option (Text × Source)
  unfolding module_conf_of yaml_of
  choose_source opt = elim (find (codes "conf") opt) [
    | some config ↦ some (p.pwd, yaml_file config)
    | none ↦ elim (find (codes "module") opt) [
      | some name ↦ module_conf_of (find name module_config_file)
      | none ↦ yaml_of (find (codes "yaml") opt)
    ]
  ]

  unfoldable pub modules_file : Text → Text
  modules_file path =
      let installed = path ++ codes "../share/rocm-validation-suite/conf/.rvsmodules.config" in
      let old = path ++ codes ".rvsmodules.config" in
      if p.good installed
      then installed
      else if p.good old
      then old
      else p.data_root ++ codes "/conf/.rvsmodules.config"

  -- The status of `run` after that of `do_yaml`, which is -999 for an exception.
  unfoldable pub run_status_of : Option ℤ → ℤ
  run_status_of none = negsuc 998
  run_status_of (some (pos zero)) = if p.stopping then negsuc 0 else pos 0
  run_status_of (some (pos (suc n))) = pos (suc n)
  run_status_of (some (negsuc n)) = negsuc n

  -- `do_yaml`, then `module::terminate`, whose callbacks come last.
  unfoldable pub run_with : Files → Text → List (Text × Bool) → Modules → Ran
  unfolding run_status_of
  run_with files config rows modules =
      let s : Session = record {
        modules = modules;
        polls = 0;
        trace = [];
        action_details = rows;
      } in
      let r = do_yaml_file w global files s config (pos 1) in
      record {
        results = results_of p.reports r.0.trace ++ p.closing r.0.modules;
        rows = r.0.action_details;
        sts = run_status_of (sts_of w global files s r.1);
      }

  stopped : List (Text × Bool) → ℤ → Ran
  stopped rows sts = record { results = []; rows = rows; sts = sts }

  unfoldable pub run_modules_of : Files → Text → List (Text × Bool) → Option Modules → Ran
  unfolding run_with stopped
  run_modules_of files config rows none = stopped rows (pos 1)
  run_modules_of files config rows (some modules) = run_with files config rows modules

  unfoldable pub run_source : List (Text × Bool) → Option (Text × Source) → Ran
  unfolding run_modules_of stopped
  run_source rows none = stopped rows (negsuc 0)
  run_source rows (some (path, yaml_file config)) =
      if p.good config
      then run_modules_of p.load_file config rows (p.initialize (modules_file path))
      else stopped rows (negsuc 0)
  run_source rows (some (path, yaml_string config)) =
      run_modules_of p.load config rows (p.initialize (modules_file path))

  unfoldable pub run_opt : Executor
  unfolding run_source
  run_opt rows opt = run_source rows (choose_source opt)
