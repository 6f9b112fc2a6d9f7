-- ===== src/Exec/Closed.antt =====
-- What `rvs::exec::run` of rvs/src/rvsexec.cpp calls last.
use rocm_validation_suite.Prelude.{
  ◌≡◌, refl, ◌⊎◌, inl, inr, ap, Bool, true, false, not, Option, none, some, List, [], ◌∷◌, ◌++◌,
  Text, codes, Map, find, if◌then◌else◌, All,
}
use rocm_validation_suite.Exec.Conf.{Checked, accepted, refused, option_or}
use rocm_validation_suite.Exec.Run.{
  ℤ, pos, modules_config, Calls, Launch, Event, help, version, tests, gpus, quiet, yaml, message,
  module_terminate, logger_terminate, is_given, read_options, run_yaml, run_actions, run_modules,
  run,
}

-- The calls that load modules and write logs.
abbrev pub is_use : Event → Bool
is_use (yaml config_file) = true
is_use gpus = true
is_use help = false
is_use version = false
is_use tests = false
is_use quiet = false
is_use module_terminate = false
is_use logger_terminate = false
is_use (message msg) = false

-- The modules and then the logger are terminated last, or nothing was used.
abbrev pub IsClosed : List Event → Type 0
IsClosed events =
    ((before : List Event) × (events ≡ before ++ module_terminate ∷ logger_terminate ∷ []))
    ⊎ All (λ e. is_use e ≡ false) events

IsClosed-if :
    (b : Bool) (r s : ℤ × List Event)
    → IsClosed r.1
    → IsClosed s.1
    → IsClosed (if b then r else s).1
IsClosed-if true r s h k = h
IsClosed-if false r s h k = k

IsClosed-quiet :
    (b : Bool) (events : List Event)
    → IsClosed events
    → IsClosed ((if b then quiet ∷ [] else []) ++ events)
IsClosed-quiet false events h = h
IsClosed-quiet true events (inl (before, e)) = inl (quiet ∷ before, ap (λ x. quiet ∷ x) e)
IsClosed-quiet true events (inr h) = inr (refl, h)

module _ (calls : Calls) where
  IsClosed-run_yaml :
      (config_file : Text) (o : Option ℤ) → IsClosed (run_yaml calls config_file o).1
  unfolding run_yaml
  IsClosed-run_yaml config_file none = inl (
    yaml config_file
        ∷ message (codes "error processing configuration file: " ++ config_file)
        ∷ message (codes "exception: " ++ calls.what)
        ∷ [],
    refl,
  )
  IsClosed-run_yaml config_file (some sts) = inl (yaml config_file ∷ [], refl)

  IsClosed-run_actions :
      (opt : Map Text) (launch : Launch) → IsClosed (run_actions calls opt launch).1
  unfolding run_actions
  IsClosed-run_actions opt launch = IsClosed-if (not calls.log_opened) _ _ (inr (refl, tt)) (
      IsClosed-if (is_given (find (codes "-g") opt)) _ _ (inl (gpus ∷ [], refl))
        (IsClosed-run_yaml launch.config_file (calls.do_yaml launch.config_file launch.num_times)))

  IsClosed-run_modules :
      (opt : Map Text) (c : Checked Launch) → IsClosed (run_modules calls opt c).1
  unfolding run_modules
  IsClosed-run_modules opt (refused msg) = inr (refl, tt)
  IsClosed-run_modules opt (accepted launch) =
      let r = run_actions calls opt launch in
      let acts : ℤ × List Event =
        (r.0, (if is_given (find (codes "-q") opt) then quiet ∷ [] else []) ++ r.1) in
      let listed : ℤ × List Event =
        if is_given (find (codes "--listTests") opt) then (pos 0, tests ∷ []) else acts in
      IsClosed-if
        (not (calls.modules_read (modules_config calls (option_or (find (codes "pwd") opt) []))))
        (pos 1, []) listed (inr tt)
        (IsClosed-if (is_given (find (codes "--listTests") opt)) (pos 0, tests ∷ []) acts
          (inr (refl, tt))
          (IsClosed-quiet (is_given (find (codes "-q") opt)) r.1 (IsClosed-run_actions opt launch)))

  -- If `run` has called `do_yaml` or `do_gpu_list`, its last two calls terminate the modules and
  -- then the logger, on every status and after an exception too.
  pub run-IsClosed : (opt : Map Text) → IsClosed (run calls opt).1
  unfolding run
  run-IsClosed opt = IsClosed-if (is_given (find (codes "-h") opt)) _ _ (inr (refl, tt)) (
      IsClosed-if (is_given (find (codes "-ver") opt)) _ _ (inr (refl, tt))
        (IsClosed-run_modules opt (read_options calls opt)))
