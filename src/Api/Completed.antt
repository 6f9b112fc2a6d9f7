-- ===== src/Api/Completed.antt =====
-- What a successful run leaves of a session: rvs/src/rvs_interface.cpp with its executor.
use mathlib.Core.List.{append-nil}
use rocm_validation_suite.Prelude.{
  ℕ, zero, suc, ◌≡◌, refl, ap, ◌∙◌, inl, inr, Bool, true, Option, none, some, List, [], ◌∷◌, ◌++◌,
  Text, codes, Map, find, arith, Bool-cases, Option-cases,
}
use rocm_validation_suite.Module.Load.{Modules}
use rocm_validation_suite.Exec.Run.{ℤ, pos, negsuc}
use rocm_validation_suite.Exec.Selection.{selection}
use rocm_validation_suite.Exec.Actions.{
  ActionNode, World, Session, Happening, called_back, Ending, going_on, returned, thrown, do_yaml,
  do_times, end_session, times, is_zero,
}
use rocm_validation_suite.Exec.Ran.{is_fine, do_times_goes_on}
use rocm_validation_suite.Exec.Launched.{Files, do_yaml_file, sts_of, do_yaml_file_zero}
use rocm_validation_suite.Api.State.{
  SessionState, initiated, completed, success, Rvs, RvsSession, rvs_validate_session, at, Result,
  result_state,
}
use rocm_validation_suite.Api.Slots.{validate_at}
use rocm_validation_suite.Api.Requests.{
  Executor, launch, rows_of, execute_property, rvs_session_execute, is_ready, options_of,
}
use rocm_validation_suite.Api.Callbacks.{state_after, launch_sessions, validate-replace, at-replace}
use rocm_validation_suite.Api.RunOpt.{
  Place, Source, yaml_file, yaml_string, result_of, results_of, run_status_of, run_with,
  run_modules_of, run_source, run_opt, choose_source, modules_file,
}

state_after-append :
    (state : SessionState) (xs ys : List Result)
    → state_after state (xs ++ ys) ≡ state_after (state_after state xs) ys
unfolding state_after
state_after-append state [] ys = refl
state_after-append state (x ∷ xs) ys = state_after-append (result_state x) xs ys

-- The last thing that happens is a callback.
abbrev EndsCalled : List Happening → Type 0
EndsCalled hs = (before : List Happening) × ((log : Text) × (hs ≡ before ++ called_back log ∷ []))

results-completed :
    (reports : Text → List Text) (state : SessionState) (before : List Happening) (log : Text)
    → state_after state (results_of reports (before ++ called_back log ∷ [])) ≡ completed
unfolding results_of result_of state_after
results-completed reports state [] log = refl
results-completed reports state (h ∷ before) log =
    state_after-append state (result_of reports h)
      (results_of reports (before ++ called_back log ∷ []))
    ∙ results-completed reports (state_after state (result_of reports h)) before log

module _ (w : World) (global : Map Text) where
  end_session_called :
      (r : Session × Ending)
      → (is_fine r.1 ≡ true → r.1 ≡ going_on)
      → (end_session w global r).1 ≡ returned (pos 0)
      → EndsCalled (end_session w global r).0.trace
  unfolding end_session
  end_session_called (s, going_on) goes h = (s.trace, (_, refl))
  end_session_called (s, returned sts) goes h = absurd (ground (arith, goes (ap is_fine h)))
  end_session_called (s, thrown) goes h = absurd cc

  do_yaml_called :
      (actions : List ActionNode) (n : ℤ) (s : Session)
      → (do_yaml w global (some actions) n s).1 ≡ returned (pos 0)
      → EndsCalled (do_yaml w global (some actions) n s).0.trace
  unfolding do_yaml
  do_yaml_called actions n s h =
      let sel = selection w.stoi (find (codes "-s") global) in
      let k = times w global n in
      end_session_called (do_times w global sel actions k s)
        (do_times_goes_on w global sel actions k s) h

  file_some :
      (files : Files) (s : Session) (config : Text) (n : ℤ) (actions : Option (List ActionNode))
      → files config ≡ some actions
      → do_yaml_file w global files s config n ≡ do_yaml w global actions n s
  unfolding do_yaml_file
  file_some files s config n actions e = ground (arith, e)

  file_called :
      (files : Files) (s : Session) (config : Text)
      → sts_of w global files s (do_yaml_file w global files s config (pos 1)).1 ≡ some (pos 0)
      → EndsCalled (do_yaml_file w global files s config (pos 1)).0.trace
  file_called files s config h =
      let (actions, full, ended) = do_yaml_file_zero w global files s config (pos 1) h in
      let (before, (log, e)) = do_yaml_called actions (pos 1) s ended in
      (
        before,
        (log, ap (λ r. r.0.trace) (file_some files s config (pos 1) (some actions) full) ∙ e),
      )

  module _ (p : Place) (quiet : (m : Modules) → p.closing m ≡ []) where
    run_status_zero : (o : Option ℤ) → run_status_of w global p o ≡ pos 0 → o ≡ some (pos 0)
    unfolding run_status_of
    run_status_zero none h = absurd cc
    run_status_zero (some (pos zero)) h = refl
    run_status_zero (some (pos (suc n))) h = absurd (ground (arith, h))
    run_status_zero (some (negsuc n)) h = absurd cc

    run_with_completed :
        (files : Files) (config : Text) (rows : List (Text × Bool)) (modules : Modules)
        (state : SessionState)
        → (run_with w global p files config rows modules).sts ≡ pos 0
        → state_after state (run_with w global p files config rows modules).results ≡ completed
    unfolding run_with
    run_with_completed files config rows modules state h =
        let s : Session = record {
          modules = modules;
          polls = 0;
          trace = [];
          action_details = rows;
        } in
        let r = do_yaml_file w global files s config (pos 1) in
        let (before, (log, e)) =
          file_called files s config (run_status_zero (sts_of w global files s r.1) h) in
        ap (λ l. state_after state (results_of p.reports r.0.trace ++ l)) (quiet r.0.modules)
        ∙ (ap (state_after state) (append-nil (results_of p.reports r.0.trace))
            ∙ (ap (λ hs. state_after state (results_of p.reports hs)) e
                ∙ results-completed p.reports state before log))

    run_modules_completed :
        (files : Files) (config : Text) (rows : List (Text × Bool)) (o : Option Modules)
        (state : SessionState)
        → (run_modules_of w global p files config rows o).sts ≡ pos 0
        → state_after state (run_modules_of w global p files config rows o).results ≡ completed
    unfolding run_modules_of
    run_modules_completed files config rows none state h = absurd (ground (arith, h))
    run_modules_completed files config rows (some modules) state h =
        run_with_completed files config rows modules state h

    run_source_completed :
        (rows : List (Text × Bool)) (o : Option (Text × Source)) (state : SessionState)
        → (run_source w global p rows o).sts ≡ pos 0
        → state_after state (run_source w global p rows o).results ≡ completed
    unfolding run_source
    run_source_completed rows none state h = absurd cc
    run_source_completed rows (some (path, yaml_file config)) state h =
        elim (Bool-cases (p.good config)) [
          | inl there ↦ rw there (
              run_modules_completed p.load_file config rows
                (p.initialize (modules_file w global p path)) state (ground (arith, h, there)))
          | inr missing ↦ absurd (ground (arith, h, missing))
        ]
    run_source_completed rows (some (path, yaml_string config)) state h =
        run_modules_completed p.load config rows (p.initialize (modules_file w global p path)) state
          h

    pub run_opt_completed :
        (rows : List (Text × Bool)) (opt : Map Text) (state : SessionState)
        → (run_opt w global p rows opt).sts ≡ pos 0
        → state_after state (run_opt w global p rows opt).results ≡ completed
    unfolding run_opt
    run_opt_completed rows opt state h =
        run_source_completed rows (choose_source w global p opt) state h

-- The session that an id names, in this state.
abbrev pub IsIn : ℕ → SessionState → Rvs → Type 0
IsIn id state r =
    (i : ℕ) × ((rvs_validate_session id r.sessions ≡ some i) × ((at i r.sessions).state ≡ state))

module _ (run : Executor) where
  launch_success :
      (id i : ℕ) (opt : Map Text) (r : Rvs)
      → (launch run id i opt r).1 ≡ success
      → is_zero (run (rows_of (at i r.sessions).executor) opt).sts ≡ true
  unfolding launch
  launch_success id i opt r h = ground (arith, h)

zero_of : (z : ℤ) → is_zero z ≡ true → z ≡ pos 0
zero_of (pos zero) h = refl
zero_of (pos (suc n)) h = absurd cc
zero_of (negsuc n) h = absurd cc

module _ (w : World) (global : Map Text) (p : Place)
    (quiet : (m : Modules) → p.closing m ≡ []) where
  launch_completed :
      (id i : ℕ) (opt : Map Text) (r : Rvs)
      → rvs_validate_session id r.sessions ≡ some i
      → (launch (run_opt w global p) id i opt r).1 ≡ success
      → IsIn id completed (launch (run_opt w global p) id i opt r).0
  launch_completed id i opt r e h =
      let s = at i r.sessions in
      let k = validate_at id i r.sessions e in
      let ran = run_opt w global p (rows_of s.executor) opt in
      let s' : RvsSession = record s {
        state = state_after initiated ran.results;
        executor = some ran.rows;
      } in
      let now = launch_sessions (run_opt w global p) id i opt r k e in
      let done =
        run_opt_completed w global p quiet (rows_of s.executor) opt initiated
          (zero_of ran.sts (launch_success (run_opt w global p) id i opt r h)) in
      (
        i,
        (
          ap (rvs_validate_session id) now ∙ validate-replace id i s' r.sessions k e,
          ap (λ ss. (at i ss).state) now
              ∙ (ap (λ x. x.state) (at-replace id i s' r.sessions e) ∙ done),
        ),
      )

  execute_property_completed :
      (id i : ℕ) (o : Option (Map Text)) (r : Rvs)
      → rvs_validate_session id r.sessions ≡ some i
      → (execute_property (run_opt w global p) id i o r).1 ≡ success
      → IsIn id completed (execute_property (run_opt w global p) id i o r).0
  unfolding execute_property
  execute_property_completed id i none r e h = absurd cc
  execute_property_completed id i (some opt) r e h = launch_completed id i opt r e h

  -- If no module passes a result on after `do_yaml`, until `module::terminate` has ended it, and
  -- `rvs_session_execute` returns success, then the session with that id is completed.
  pub execute_completed :
      (id : ℕ) (r : Rvs)
      → (rvs_session_execute (run_opt w global p) id r).1 ≡ success
      → IsIn id completed (rvs_session_execute (run_opt w global p) id r).0
  unfolding rvs_session_execute
  execute_completed id r h = elim (Bool-cases r.initialized) [
    | inr off ↦ absurd (ground (arith, h, off))
    | inl on ↦ elim (Option-cases (rvs_validate_session id r.sessions)) [
      | inl no_one ↦ absurd (ground (arith, h, on, no_one))
      | inr (i, found) ↦ elim (Bool-cases (is_ready (at i r.sessions).state)) [
        | inr early ↦ absurd (ground (arith, h, on, found, early))
        | inl fit ↦
            rw (on, found, fit)
              (execute_property_completed id i (options_of (at i r.sessions).property) r found
                (ground (arith, h, on, found, fit)))
      ]
    ]
  ]
