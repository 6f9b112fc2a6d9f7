-- ===== src/Exec/Launched.antt =====
-- `rvs::exec::run` of rvs/src/rvsexec.cpp with the `do_yaml` of rvs/src/rvsexec_do_yaml.cpp that it
-- calls.
use rocm_validation_suite.Prelude.{
  ℕ, ◌≡◌, sym, ap, ◌∙◌, refl, ◌⊎◌, inl, inr, false, Option, none, some, List, ◌++◌, Text, codes,
  Map, find, map, arith, Option-cases,
}
use rocm_validation_suite.Exec.Run.{ℤ, pos, negsuc, Calls, Launch, is_given, run}
use rocm_validation_suite.Exec.Status.{IsRunnable, IsTimes}
use rocm_validation_suite.Exec.Zero.{helped, versioned, listed, gpus_listed, actions_done, run_zero}
use rocm_validation_suite.Exec.Selection.{selection}
use rocm_validation_suite.Exec.Actions.{
  ActionNode, World, Session, Ending, going_on, returned, thrown, do_yaml, times,
}
use rocm_validation_suite.Exec.Reported.{IsReported, verdicts}
use rocm_validation_suite.Exec.Ran.{chosen, repeated, do_yaml_runs}

-- What `YAML::LoadFile` reads: `none` where it throws, and no list where the key "actions" is
-- missing.
abbrev pub Files : Type 0
Files = Text → Option (Option (List ActionNode))

-- The number of rounds that the option -n asks for: one where it is missing, none where it is
-- negative.
abbrev pub IsRounds : Calls → Option Text → ℕ → Type 0
IsRounds calls o n =
    ((o ≡ none) × (n ≡ 1))
    ⊎ ((val : Text) × (o ≡ some val)
        × ((calls.stoi val ≡ some (pos n))
            ⊎ ((m : ℕ) × (calls.stoi val ≡ some (negsuc m)) × (n ≡ 0))))

times-IsRounds :
    (w : World) (opt : Map Text) (calls : Calls) (o : Option Text) (z : ℤ)
    → IsTimes calls o z
    → IsRounds calls o (times w opt z)
unfolding times
times-IsRounds w opt calls o z (inl (missing, one)) = inl (missing, ap (times w opt) one)
times-IsRounds w opt calls o (pos n) (inr (val, given, got)) = inr (val, given, inl got)
times-IsRounds w opt calls o (negsuc m) (inr (val, given, got)) =
    inr (val, given, inr (m, got, refl))

module _ (w : World) (opt : Map Text) (files : Files) (s : Session) where
  unfoldable pub do_yaml_file : Text → ℤ → Session × Ending
  do_yaml_file config_file num_times = elim (files config_file) [
    | none ↦ (s, thrown)
    | some actions ↦ do_yaml w opt actions num_times s
  ]

  -- The status, `none` for an exception that `run` catches.
  unfoldable pub sts_of : Ending → Option ℤ
  sts_of going_on = none
  sts_of (returned sts) = some sts
  sts_of thrown = none

  -- The calls of `run`, with this `do_yaml`.
  abbrev pub with_yaml : Calls → Calls
  with_yaml calls = record calls {
    do_yaml = λ config_file num_times. sts_of (do_yaml_file config_file num_times).1;
  }

  -- The selected actions of the file that the options ask for were run in its order, in as many
  -- rounds as -n asks for.
  pub record IsPerformed (calls : Calls) : Type 0 where
    pub launch : Launch
    pub actions : List ActionNode
    pub runnable : IsRunnable (with_yaml calls) opt launch
    pub rounds : ℕ
    pub counted : IsRounds calls (find (codes "-n") opt) rounds
    pub read : files launch.config_file ≡ some (some actions)
    pub done :
        map (λ row. row.0) (verdicts (do_yaml_file launch.config_file launch.num_times).0.trace)
        ≡ map (λ row. row.0) (verdicts s.trace)
          ++ repeated rounds (chosen (selection w.stoi (find (codes "-s") opt)) 0 actions)

  sts_of_zero : (e : Ending) → sts_of e ≡ some (pos 0) → e ≡ returned (pos 0)
  unfolding sts_of
  sts_of_zero going_on h = absurd cc
  sts_of_zero (returned sts) h = cc
  sts_of_zero thrown h = absurd cc

  pub do_yaml_file_zero :
      (config_file : Text) (num_times : ℤ)
      → sts_of (do_yaml_file config_file num_times).1 ≡ some (pos 0)
      → (actions : List ActionNode) × (files config_file ≡ some (some actions))
        × ((do_yaml w opt (some actions) num_times s).1 ≡ returned (pos 0))
  unfolding do_yaml_file sts_of do_yaml
  do_yaml_file_zero config_file num_times h = elim (Option-cases (files config_file)) [
    | inl unread ↦ absurd (ground (arith, h, unread))
    | inr (none, empty) ↦ absurd (ground (arith, h, empty))
    | inr (some actions, full) ↦ (
      actions,
      full,
      sts_of_zero (do_yaml w opt (some actions) num_times s).1 (
          ap
            (λ f.
              sts_of
                (elim f as (λ x. Session × Ending) [
                  | none ↦ (s, thrown)
                  | some acts ↦ do_yaml w opt acts num_times s
                ]).1)
            (sym full)
          ∙ h),
    )
  ]

  performed :
      (calls : Calls) (launch : Launch)
      → IsReported s
      → IsRunnable (with_yaml calls) opt launch
      → sts_of (do_yaml_file launch.config_file launch.num_times).1 ≡ some (pos 0)
      → IsPerformed calls
  unfolding do_yaml_file
  performed calls launch reported runnable h =
      let (actions, full, zero_) = do_yaml_file_zero launch.config_file launch.num_times h in
      record {
        launch = launch;
        actions = actions;
        runnable = runnable;
        rounds = times w opt launch.num_times;
        counted =
            times-IsRounds w opt calls (find (codes "-n") opt) launch.num_times runnable.times;
        read = full;
        done =
            ap
              (λ f.
                map (λ row. row.0)
                  (verdicts
                    (elim f as (λ x. Session × Ending) [
                      | none ↦ (s, thrown)
                      | some acts ↦ do_yaml w opt acts launch.num_times s
                    ]).0.trace))
              full
            ∙ do_yaml_runs w opt actions launch.num_times s reported zero_;
      }

  -- Where none of -h, -ver, --listTests and -g is given and the launcher's status is 0, the options
  -- were valid and the first readable file of those that -m, -r and -c ask for has a list of
  -- actions; the selected actions of that list were run in its order, beside what was run before,
  -- in as many rounds as -n says: one without it, none for a negative number.
  -- The table of actions run before has to be right.
  pub run-IsPerformed :
      (calls : Calls)
      → is_given (find (codes "-h") opt) ≡ false
      → is_given (find (codes "-ver") opt) ≡ false
      → is_given (find (codes "--listTests") opt) ≡ false
      → is_given (find (codes "-g") opt) ≡ false
      → IsReported s
      → (run (with_yaml calls) opt).0 ≡ pos 0
      → IsPerformed calls
  run-IsPerformed calls no_h no_ver no_list no_g reported e =
      elim (run_zero (with_yaml calls) opt e) [
        | helped h ↦ absurd cc
        | versioned v ↦ absurd cc
        | listed launch ok rd l ↦ absurd cc
        | gpus_listed launch ok rd opened g gs ↦ absurd cc
        | actions_done launch ok rd opened finished running ↦
            performed calls launch reported ok finished
      ]
