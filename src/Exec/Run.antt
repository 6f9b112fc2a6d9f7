-- ===== src/Exec/Run.antt =====
-- `rvs::exec::run` of rvs/src/rvsexec.cpp: the options that it reads and what it calls. The calls
-- that are not modelled are parameters.
use rocm_validation_suite.Prelude.{
  ℕ, zero, suc, Bool, true, false, not, Option, none, some, List, [], ◌∷◌, ◌++◌, Text, codes, Map,
  find, if◌then◌else◌, ltb,
}
use rocm_validation_suite.Exec.Conf.{
  Site, Checked, accepted, refused, and_then, option_or, choose_conf,
}

pub data ℤ : Type 0 where
  pos negsuc : ℕ → ℤ

-- `stoi` and `stoll` throw on `none`, and so does `do_yaml`. The others are the status of
-- `module::initialize` (true for 0), of `init_log_file`, of `do_gpu_list`, and `Stopping`.
pub record Calls : Type 0 where
  pub site : Site
  pub stoi : Text → Option ℤ
  pub stoll : Text → Option ℤ
  pub modules_read : Text → Bool
  pub log_opened : Bool
  pub gpu_list : ℤ
  pub what : Text
  pub do_yaml : Text → ℤ → Option ℤ
  pub stopping : Bool

pub record Launch : Type 0 where
  pub log_level : ℕ
  pub append : Bool
  pub log_file : Option Text
  pub json_log_file : Option Text
  pub config_file : Text
  pub num_times : ℤ

pub data Event : Type 0 where
  help version tests gpus quiet module_terminate logger_terminate : Event
  yaml : Text → Event
  message : Text → Event

unfoldable pub is_given : Option Text → Bool
is_given none = false
is_given (some val) = true

unfoldable pub level_of : Text → Option ℤ → Checked ℕ
level_of val none = refused (codes "logging level not integer: " ++ val)
level_of val (some (negsuc n)) = refused (codes "logging level not in range [0..5]: " ++ val)
level_of val (some (pos n)) =
    if ltb 5 n then refused (codes "logging level not in range [0..5]: " ++ val) else accepted n

unfoldable pub duration_of : Text → Option ℤ → Checked ℕ
duration_of val none = refused (codes "duration value not a valid integer: " ++ val)
duration_of val (some (negsuc n)) = refused (codes "duration must be greater than 0")
duration_of val (some (pos zero)) = refused (codes "duration must be greater than 0")
duration_of val (some (pos (suc n))) = accepted (suc n)

unfoldable pub times_of : Text → Option ℤ → Checked ℤ
times_of val none = refused (codes "number of times test repeat value not an integer: " ++ val)
times_of val (some n) = accepted n

module _ (calls : Calls) where
  -- The option -d; the level is that of errors, 2, without it.
  unfoldable pub read_d : Option Text → Checked ℕ
  unfolding level_of
  read_d none = accepted 2
  read_d (some val) = level_of val (calls.stoi val)

  unfoldable pub read_n : Option Text → Checked ℤ
  unfolding times_of
  read_n none = accepted (pos 1)
  read_n (some val) = times_of val (calls.stoi val)

  unfoldable pub read_t : Option Text → Checked (Option ℕ)
  unfolding duration_of and_then
  read_t none = accepted none
  read_t (some val) = and_then (duration_of val (calls.stoll val)) (λ n. accepted (some n))

  -- From the option -d to -t.
  unfoldable pub read_options : Map Text → Checked Launch
  unfolding and_then is_given
  read_options opt = and_then (read_d (find (codes "-d") opt)) (λ level.
      and_then (choose_conf calls.site opt) (λ config_file.
        and_then (read_n (find (codes "-n") opt)) (λ num_times.
          and_then (read_t (find (codes "-t") opt)) (λ _. accepted (record {
            log_level = if is_given (find (codes "-v") opt) then 5 else level;
            append = is_given (find (codes "-a") opt);
            log_file = find (codes "-l") opt;
            json_log_file = find (codes "-j") opt;
            config_file = config_file;
            num_times = num_times;
          })))))

  -- The file that names the modules' libraries.
  unfoldable pub modules_config : Text → Text
  modules_config path =
      let installed = path ++ codes "../share/rocm-validation-suite/conf/.rvsmodules.config" in
      if calls.site.good installed then installed else path ++ codes ".rvsmodules.config"

  -- The status after `do_yaml` gave `sts`.
  unfoldable pub final_status : ℤ → ℤ
  final_status (pos zero) = if calls.stopping then negsuc 0 else pos 0
  final_status (pos (suc n)) = pos (suc n)
  final_status (negsuc n) = negsuc n

  unfoldable pub run_yaml : Text → Option ℤ → ℤ × List Event
  unfolding final_status
  run_yaml config_file none = (
    final_status (negsuc 998),
    yaml config_file
        ∷ message (codes "error processing configuration file: " ++ config_file)
        ∷ message (codes "exception: " ++ calls.what)
        ∷ module_terminate
        ∷ logger_terminate
        ∷ [],
  )
  run_yaml config_file (some sts) =
      (final_status sts, yaml config_file ∷ module_terminate ∷ logger_terminate ∷ [])

  -- From `init_log_file` on.
  unfoldable pub run_actions : Map Text → Launch → ℤ × List Event
  unfolding run_yaml is_given option_or
  run_actions opt launch =
      if not calls.log_opened
      then (
        negsuc 0,
        message (codes "could not access log file: " ++ option_or launch.log_file []) ∷ [],
      )
      else if is_given (find (codes "-g") opt)
      then (calls.gpu_list, gpus ∷ module_terminate ∷ logger_terminate ∷ [])
      else run_yaml launch.config_file (calls.do_yaml launch.config_file launch.num_times)

  -- From `module::initialize` on.
  unfoldable pub run_modules : Map Text → Checked Launch → ℤ × List Event
  unfolding run_actions modules_config is_given option_or
  run_modules opt (refused msg) = (negsuc 0, message msg ∷ [])
  run_modules opt (accepted launch) =
      let before = if is_given (find (codes "-q") opt) then quiet ∷ [] else [] in
      let r = run_actions opt launch in
      if not (calls.modules_read (modules_config (option_or (find (codes "pwd") opt) [])))
      then (pos 1, [])
      else if is_given (find (codes "--listTests") opt)
      then (pos 0, tests ∷ [])
      else (r.0, before ++ r.1)

  -- The status, and what was called in order.
  unfoldable pub run : Map Text → ℤ × List Event
  unfolding run_modules is_given
  run opt =
      if is_given (find (codes "-h") opt)
      then (pos 0, help ∷ [])
      else if is_given (find (codes "-ver") opt)
      then (pos 0, version ∷ [])
      else run_modules opt (read_options opt)
