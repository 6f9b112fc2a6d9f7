-- ===== src/Exec/Zero.antt =====
-- When `rvs::exec::run` of rvs/src/rvsexec.cpp returns 0, and what it calls last.
use rocm_validation_suite.Prelude.{
  zero, suc, ◌≡◌, refl, inl, inr, true, false, Option, none, some, [], Text, codes, Map, find,
  arith, Bool-cases,
}
use rocm_validation_suite.Exec.Conf.{Checked, accepted, refused, option_or}
use rocm_validation_suite.Exec.Status.{IsRunnable, read_options-IsRunnable}
use rocm_validation_suite.Exec.Run.{
  ℤ, pos, negsuc, Calls, Launch, is_given, read_options, modules_config, final_status, run_yaml,
  run_actions, run_modules, run,
}

-- The ways to succeed: a request for information, or the actions of a configuration file.
pub data IsSuccess (calls : Calls) (opt : Map Text) : Type 0 where
  helped : is_given (find (codes "-h") opt) ≡ true → IsSuccess calls opt
  versioned : is_given (find (codes "-ver") opt) ≡ true → IsSuccess calls opt
  listed :
      (launch : Launch)
      → IsRunnable calls opt launch
      → calls.modules_read (modules_config calls (option_or (find (codes "pwd") opt) [])) ≡ true
      → is_given (find (codes "--listTests") opt) ≡ true
      → IsSuccess calls opt
  gpus_listed :
      (launch : Launch)
      → IsRunnable calls opt launch
      → calls.modules_read (modules_config calls (option_or (find (codes "pwd") opt) [])) ≡ true
      → calls.log_opened ≡ true
      → is_given (find (codes "-g") opt) ≡ true
      → calls.gpu_list ≡ pos 0
      → IsSuccess calls opt
  actions_done :
      (launch : Launch)
      → IsRunnable calls opt launch
      → calls.modules_read (modules_config calls (option_or (find (codes "pwd") opt) [])) ≡ true
      → calls.log_opened ≡ true
      → calls.do_yaml launch.config_file launch.num_times ≡ some (pos 0)
      → calls.stopping ≡ false
      → IsSuccess calls opt

module _ (calls : Calls) where
  run_yaml_zero :
      (config_file : Text) (o : Option ℤ)
      → (run_yaml calls config_file o).0 ≡ pos 0
      → (o ≡ some (pos 0)) × (calls.stopping ≡ false)
  unfolding run_yaml final_status
  run_yaml_zero config_file none e = absurd cc
  run_yaml_zero config_file (some (pos zero)) e = (refl, ground (arith, e))
  run_yaml_zero config_file (some (pos (suc n))) e = absurd (ground (arith, e))
  run_yaml_zero config_file (some (negsuc n)) e = absurd cc

  run_actions_zero :
      (opt : Map Text) (launch : Launch)
      → IsRunnable calls opt launch
      → calls.modules_read (modules_config calls (option_or (find (codes "pwd") opt) [])) ≡ true
      → (run_actions calls opt launch).0 ≡ pos 0
      → IsSuccess calls opt
  unfolding run_actions
  run_actions_zero opt launch ok read e = elim (Bool-cases calls.log_opened) [
    | inr closed ↦ absurd (ground (arith, e, closed))
    | inl opened ↦ elim (Bool-cases (is_given (find (codes "-g") opt))) [
      | inl g ↦ gpus_listed launch ok read opened g (ground (arith, e, opened, g))
      | inr no_g ↦
          let (done, running) =
            run_yaml_zero launch.config_file (calls.do_yaml launch.config_file launch.num_times)
              (ground (arith, e, opened, no_g)) in
          actions_done launch ok read opened done running
    ]
  ]

  run_modules_zero :
      (opt : Map Text) (c : Checked Launch)
      → ((launch : Launch) → c ≡ accepted launch → IsRunnable calls opt launch)
      → (run_modules calls opt c).0 ≡ pos 0
      → IsSuccess calls opt
  unfolding run_modules
  run_modules_zero opt (refused msg) h e = absurd cc
  run_modules_zero opt (accepted launch) h e =
      let there =
        calls.modules_read (modules_config calls (option_or (find (codes "pwd") opt) [])) in
      elim (Bool-cases there) [
        | inr unread ↦ absurd (ground (arith, e, unread))
        | inl read ↦ elim (Bool-cases (is_given (find (codes "--listTests") opt))) [
          | inl asked ↦ listed launch (h launch refl) read asked
          | inr unasked ↦
              run_actions_zero opt launch (h launch refl) read (ground (arith, e, read, unasked))
        ]
      ]

  -- The status is 0 only if help, the version, the tests or the GPUs were asked for, or `do_yaml`
  -- returned 0 on the configuration file that the options ask for and no stop was requested. But
  -- for help and the version the list of modules was read then, -d was missing or a number up to
  -- 5, -n missing or a number, -t missing or a positive number, the file could be read, and the
  -- log level, the log files and the rounds were those that the options say: one round without -n,
  -- the level 5 with -v, else that of -d, else 2.
  pub run_zero : (opt : Map Text) → (run calls opt).0 ≡ pos 0 → IsSuccess calls opt
  unfolding run
  run_zero opt e = elim (Bool-cases (is_given (find (codes "-h") opt))) [
    | inl h ↦ helped h
    | inr no_h ↦ elim (Bool-cases (is_given (find (codes "-ver") opt))) [
      | inl v ↦ versioned v
      | inr no_v ↦
          run_modules_zero opt (read_options calls opt) (read_options-IsRunnable calls opt)
            (ground (arith, e, no_h, no_v))
    ]
  ]
