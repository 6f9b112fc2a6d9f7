-- ===== src/Exec/Actions.antt =====
-- `do_yaml` of rvs/src/rvsexec_do_yaml.cpp: the loop over the actions of a configuration file. The
-- tables on the terminal, the spinner and the log are left out; the calls of the callback are kept.
use rocm_validation_suite.Prelude.{
  ℕ, zero, suc, ◌+◌, Bool, true, false, Option, none, some, List, [], ◌∷◌, ◌++◌, Text, codes, Map,
  find, is_nil, map, ◌==◌, if◌then◌else◌,
}
use rocm_validation_suite.Module.Load.{ActionProxy, Host, Modules, action_create, action_destroy}
use rocm_validation_suite.Exec.Conf.{option_or}
use rocm_validation_suite.Exec.Run.{ℤ, pos, negsuc}
use rocm_validation_suite.Exec.Selection.{is_selected, has_index, selection, Selection}
use rocm_validation_suite.Exec.Properties.{Entry, Numbers, do_yaml_properties}

-- An item of the list "actions"; `none` for a key whose conversion throws.
pub record ActionNode : Type 0 where
  pub name : Option Text
  pub module_name : Option Text
  pub entries : List Entry

-- What is called: the module loader's host, `stoi` with the number of bytes that it reads, the
-- status of `property_set`, which is not negative, and that of `run` for the object of an action
-- with the properties set so far; `stopping` answers by the number of the question.
pub record World : Type 0 where
  pub host : Host
  pub numbers : Numbers
  pub stoi : Text → Option (ℤ × ℕ)
  pub set_status : ℕ → Text × Text → ℕ
  pub run_status : ℕ → List (Text × Text) → ℤ
  pub stopping : ℕ → Bool

pub data Happening : Type 0 where
  created destroyed : ℕ → Happening
  ran : Text → ℤ → Happening
  called_back : Text → Happening

pub record Session : Type 0 where
  pub modules : Modules
  pub polls : ℕ
  pub trace : List Happening
  pub action_details : List (Text × Bool)

-- How a part of the function ends: it goes on, returns a status, or throws.
pub data Ending : Type 0 where
  going_on : Ending
  returned : ℤ → Ending
  thrown : Ending

abbrev pub add_trace : List Happening → Session → Session
add_trace hs s = record s { trace = s.trace ++ hs }

abbrev pub is_zero : ℤ → Bool
is_zero (pos zero) = true
is_zero (pos (suc n)) = false
is_zero (negsuc n) = false

-- The next part, if this one goes on.
unfoldable pub and_then : Session × Ending → (Session → Session × Ending) → Session × Ending
and_then (s, going_on) next = next s
and_then (s, returned sts) next = (s, returned sts)
and_then (s, thrown) next = (s, thrown)

-- The properties for the options of the command line.
unfoldable pub cli_properties : Map Text → List (Text × Text)
cli_properties = map (λ kv. (codes "cli." ++ kv.0, kv.1))

module _ (w : World) (opt : Map Text) where
  -- `module::action_destroy`, which leaves the object alone when its module is not found.
  unfoldable pub destroy_action : ActionProxy → Session → Session
  destroy_action pa s =
      let r = action_destroy w.host pa s.modules in
      record s {
        modules = r.0;
        trace = s.trace ++ elim r.1 [ none ↦ [] | some sts ↦ destroyed pa.plibaction ∷ [] ];
      }

  unfoldable pub set_sum : ℕ → List (Text × Text) → ℕ
  set_sum plib [] = 0
  set_sum plib (kv ∷ calls) = w.set_status plib kv + set_sum plib calls

  -- The action is run, released and reported.
  unfoldable pub finish_action : Text → ActionProxy → List (Text × Text) → Session → Session
  unfolding destroy_action
  finish_action name pa calls s =
      let sts = w.run_status pa.plibaction calls in
      let s' = destroy_action pa (add_trace (ran name sts ∷ []) s) in
      let failure = codes "action '" ++ (name ++ codes "' failed with error !") in
      let s'' = if is_zero sts then s' else add_trace (called_back failure ∷ []) s' in
      record s'' { action_details = s''.action_details ++ (name, is_zero sts) ∷ [] }

  -- Once the properties are known.
  unfoldable pub with_properties :
      Text → ActionProxy → List (Text × Text) × Option ℕ → Session → Session × Ending
  unfolding finish_action cli_properties
  with_properties name pa (calls, none) s = (s, thrown)
  with_properties name pa (calls, some n) s =
      let sts = set_sum pa.plibaction calls + n in
      if sts == 0
      then (finish_action name pa (calls ++ cli_properties opt) s, going_on)
      else (destroy_action pa s, returned (pos sts))

  -- Once the action object is there: `get_interface(1)`.
  unfoldable pub with_action : Text → Text → List Entry → ActionProxy → Session → Session × Ending
  unfolding with_properties has_index
  with_action name rvsmodule entries pa s =
      if has_index 1 pa.ifmap
      then with_properties name pa (do_yaml_properties w.numbers opt rvsmodule entries) s
      else (
        add_trace
            (called_back (codes "action '" ++ (name ++ codes "' could not obtain interface if1"))
              ∷ [])
            (destroy_action pa s),
        returned (negsuc 0),
      )

  unfoldable pub with_module : Text → Text → List Entry → Session → Session × Ending
  with_module name rvsmodule entries s =
      if is_nil rvsmodule
      then (
        add_trace
            (called_back (codes "action '" ++ (name ++ codes "' does not specify module.")) ∷ []) s,
        returned (negsuc 0),
      )
      else let r = action_create w.host rvsmodule s.modules in
        elim r.1 [
          | none ↦ (
            add_trace
                (called_back (
                    codes "action '"
                    ++ (name
                        ++ (codes "' could not create action object in module '"
                            ++ (rvsmodule ++ codes "'"))))
                  ∷ [])
                (record s { modules = r.0 }),
            returned (negsuc 0),
          )
          | some pa ↦
              with_action name rvsmodule entries pa
                (record s { modules = r.0; trace = s.trace ++ created pa.plibaction ∷ [] })
        ]

  -- One selected action, from the question whether to stop.
  unfoldable pub do_action : Text → ActionNode → Session → Session × Ending
  do_action name a s =
      let s' = record s { polls = suc s.polls } in
      if w.stopping s.polls
      then (
        add_trace (called_back (codes "action '" ++ (name ++ codes "' was requested to stop")) ∷ [])
            s',
        returned (negsuc 0),
      )
      else with_module name (option_or a.module_name []) a.entries s'

  -- One action of the list: skipped unless it is selected; a name that cannot be read throws.
  unfoldable pub consider : Selection → ℕ → Option Text → ActionNode → Session → Session × Ending
  consider sel action_idx none a s = (s, thrown)
  consider sel action_idx (some name) a s =
      if is_selected sel name action_idx then do_action name a s else (s, going_on)

  -- The loop over the actions.
  unfoldable pub do_actions : Selection → ℕ → List ActionNode → Session → Session × Ending
  do_actions sel action_idx [] s = (s, going_on)
  do_actions sel action_idx (a ∷ actions) s =
      and_then (consider sel action_idx a.name a s) (do_actions sel (suc action_idx) actions)

  -- `for (int i = 0; i < num_times; i++)`
  unfoldable pub do_times : Selection → List ActionNode → ℕ → Session → Session × Ending
  do_times sel actions zero s = (s, going_on)
  do_times sel actions (suc n) s = and_then (do_actions sel 0 actions s) (do_times sel actions n)

  -- After the loops: the last call of the callback.
  unfoldable pub end_session : Session × Ending → Session × Ending
  end_session (s, going_on) = (
    add_trace (called_back (codes "RVS session successfully completed.") ∷ []) s,
    returned (pos 0),
  )
  end_session (s, returned sts) = (s, returned sts)
  end_session (s, thrown) = (s, thrown)

  unfoldable pub times : ℤ → ℕ
  times (pos n) = n
  times (negsuc n) = 0

  -- The actions of the file, `none` if the key "actions" is missing.
  unfoldable pub do_yaml : Option (List ActionNode) → ℤ → Session → Session × Ending
  unfolding times
  do_yaml none num_times s = (s, returned (negsuc 0))
  do_yaml (some actions) num_times s =
      end_session (do_times (selection w.stoi (find (codes "-s") opt)) actions (times num_times) s)
