-- ===== src/Exec/Reported.antt =====
-- What `do_yaml` of rvs/src/rvsexec_do_yaml.cpp notes about the actions that it runs, the rows of
-- the table at its end.
use mathlib.Core.List.{append-nil}
use rocm_validation_suite.Prelude.{
  ℕ, zero, suc, ◌≡◌, refl, ap, ◌∙◌, inl, inr, Bool, Option, none, some, List, [], ◌∷◌, ◌++◌, ◌+◌,
  Text, codes, Map, find, is_nil, ◌==◌, Bool-cases, Option-cases,
}
use rocm_validation_suite.Module.Load.{ActionProxy, action_create, action_destroy}
use rocm_validation_suite.Exec.Run.{ℤ}
use rocm_validation_suite.Exec.Conf.{option_or}
use rocm_validation_suite.Exec.Properties.{Entry, do_yaml_properties}
use rocm_validation_suite.Exec.Selection.{Selection, is_selected, has_index, selection}
use rocm_validation_suite.Exec.Actions.{
  ActionNode, World, Session, Happening, created, destroyed, ran, called_back, Ending, going_on,
  returned, thrown, add_trace, is_zero, set_sum, destroy_action, finish_action, with_properties,
  with_action, with_module, do_action, do_actions, do_times, end_session, do_yaml, consider,
  and_then, times,
}

-- The actions that were run, and whether their status was 0.
unfoldable pub verdicts : List Happening → List (Text × Bool)
verdicts [] = []
verdicts (created p ∷ hs) = verdicts hs
verdicts (destroyed p ∷ hs) = verdicts hs
verdicts (ran name sts ∷ hs) = (name, is_zero sts) ∷ verdicts hs
verdicts (called_back log ∷ hs) = verdicts hs

verdicts-append : (hs ks : List Happening) → verdicts (hs ++ ks) ≡ verdicts hs ++ verdicts ks
unfolding verdicts
verdicts-append [] ks = refl
verdicts-append (created p ∷ hs) ks = verdicts-append hs ks
verdicts-append (destroyed p ∷ hs) ks = verdicts-append hs ks
verdicts-append (ran name sts ∷ hs) ks = ap (λ vs. (name, is_zero sts) ∷ vs) (verdicts-append hs ks)
verdicts-append (called_back log ∷ hs) ks = verdicts-append hs ks

-- The rows are those of the actions run so far.
abbrev pub IsReported : Session → Type 0
IsReported s = verdicts s.trace ≡ s.action_details

quiet : (hs ks : List Happening) → verdicts ks ≡ [] → verdicts (hs ++ ks) ≡ verdicts hs
quiet hs ks e = verdicts-append hs ks ∙ (ap (λ vs. verdicts hs ++ vs) e ∙ append-nil (verdicts hs))

module _ (w : World) (opt : Map Text) where
  verdicts-destroy_action :
      (pa : ActionProxy) (s : Session)
      → verdicts (destroy_action w opt pa s).trace ≡ verdicts s.trace
  unfolding destroy_action verdicts
  verdicts-destroy_action pa s = elim (Option-cases (action_destroy w.host pa s.modules).1) [
    | inl e ↦ rw e (quiet s.trace [] refl)
    | inr (sts, e) ↦ rw e (quiet s.trace (destroyed pa.plibaction ∷ []) refl)
  ]

  finish_action-IsReported :
      (name : Text) (pa : ActionProxy) (calls : List (Text × Text)) (s : Session)
      → IsReported s
      → IsReported (finish_action w opt name pa calls s)
  unfolding finish_action verdicts
  finish_action-IsReported name pa calls s d =
      let sts = w.run_status pa.plibaction calls in
      let s1 = add_trace (ran name sts ∷ []) s in
      let noted =
        verdicts-destroy_action pa s1
        ∙ (verdicts-append s.trace (ran name sts ∷ [])
            ∙ ap (λ vs. vs ++ (name, is_zero sts) ∷ []) d) in
      elim (Bool-cases (is_zero sts)) [
        | inl z ↦ rw z (noted ∙ ap (λ b. s.action_details ++ (name, b) ∷ []) z)
        | inr nz ↦ rw nz (
            quiet (destroy_action w opt pa s1).trace (called_back _ ∷ []) refl
            ∙ (noted ∙ ap (λ b. s.action_details ++ (name, b) ∷ []) nz))
      ]

  add_called :
      (log : Text) (s : Session) → IsReported s → IsReported (add_trace (called_back log ∷ []) s)
  unfolding verdicts
  add_called log s d = quiet s.trace (called_back log ∷ []) refl ∙ d

  destroy_action-IsReported :
      (pa : ActionProxy) (s : Session) → IsReported s → IsReported (destroy_action w opt pa s)
  unfolding destroy_action
  destroy_action-IsReported pa s d = verdicts-destroy_action pa s ∙ d

  with_properties-IsReported :
      (name : Text) (pa : ActionProxy) (sets : List (Text × Text) × Option ℕ) (s : Session)
      → IsReported s
      → IsReported (with_properties w opt name pa sets s).0
  unfolding with_properties
  with_properties-IsReported name pa (calls, none) s d = d
  with_properties-IsReported name pa (calls, some n) s d =
      elim (Bool-cases (set_sum w opt pa.plibaction calls + n == 0)) [
        | inl z ↦ rw z (finish_action-IsReported name pa _ s d)
        | inr nz ↦ rw nz (destroy_action-IsReported pa s d)
      ]

  with_action-IsReported :
      (name rvsmodule : Text) (entries : List Entry) (pa : ActionProxy) (s : Session)
      → IsReported s
      → IsReported (with_action w opt name rvsmodule entries pa s).0
  unfolding with_action
  with_action-IsReported name rvsmodule entries pa s d = elim (Bool-cases (has_index 1 pa.ifmap)) [
    | inl there ↦ rw there (
        with_properties-IsReported name pa (do_yaml_properties w.numbers opt rvsmodule entries) s d)
    | inr absent ↦
        rw absent (add_called _ (destroy_action w opt pa s) (destroy_action-IsReported pa s d))
  ]

  with_module-IsReported :
      (name rvsmodule : Text) (entries : List Entry) (s : Session)
      → IsReported s
      → IsReported (with_module w opt name rvsmodule entries s).0
  unfolding with_module verdicts
  with_module-IsReported name rvsmodule entries s d = elim (Bool-cases (is_nil rvsmodule)) [
    | inl empty ↦ rw empty (add_called _ s d)
    | inr given ↦ elim (Option-cases (action_create w.host rvsmodule s.modules).1) [
      | inl failed ↦
          rw (given, failed)
            (add_called _ (record s { modules = (action_create w.host rvsmodule s.modules).0 }) d)
      | inr (pa, made) ↦
          rw (given, made)
            (with_action-IsReported name rvsmodule entries pa
              (record s {
                modules = (action_create w.host rvsmodule s.modules).0;
                trace = s.trace ++ created pa.plibaction ∷ [];
              })
              (quiet s.trace (created pa.plibaction ∷ []) refl ∙ d))
    ]
  ]

  do_action-IsReported :
      (name : Text) (a : ActionNode) (s : Session)
      → IsReported s
      → IsReported (do_action w opt name a s).0
  unfolding do_action
  do_action-IsReported name a s d = elim (Bool-cases (w.stopping s.polls)) [
    | inl stop ↦ rw stop (add_called _ (record s { polls = suc s.polls }) d)
    | inr go ↦ rw go (
        with_module-IsReported name (option_or a.module_name []) a.entries
          (record s { polls = suc s.polls }) d)
  ]

  consider-IsReported :
      (sel : Selection) (i : ℕ) (name : Option Text) (a : ActionNode) (s : Session)
      → IsReported s
      → IsReported (consider w opt sel i name a s).0
  unfolding consider
  consider-IsReported sel i none a s d = d
  consider-IsReported sel i (some name) a s d = elim (Bool-cases (is_selected sel name i)) [
    | inl on ↦ rw on (do_action-IsReported name a s d)
    | inr off ↦ rw off d
  ]

  and_then-IsReported :
      (r : Session × Ending) (next : Session → Session × Ending)
      → IsReported r.0
      → ((s : Session) → IsReported s → IsReported (next s).0)
      → IsReported (and_then r next).0
  unfolding and_then
  and_then-IsReported (s, going_on) next d rest = rest s d
  and_then-IsReported (s, returned sts) next d rest = d
  and_then-IsReported (s, thrown) next d rest = d

  do_actions-IsReported :
      (sel : Selection) (i : ℕ) (actions : List ActionNode) (s : Session)
      → IsReported s
      → IsReported (do_actions w opt sel i actions s).0
  unfolding do_actions
  do_actions-IsReported sel i [] s d = d
  do_actions-IsReported sel i (a ∷ actions) s d =
      and_then-IsReported (consider w opt sel i a.name a s) (do_actions w opt sel (suc i) actions)
        (consider-IsReported sel i a.name a s d) (do_actions-IsReported sel (suc i) actions)

  do_times-IsReported :
      (sel : Selection) (actions : List ActionNode) (n : ℕ) (s : Session)
      → IsReported s
      → IsReported (do_times w opt sel actions n s).0
  unfolding do_times
  do_times-IsReported sel actions zero s d = d
  do_times-IsReported sel actions (suc n) s d =
      and_then-IsReported (do_actions w opt sel 0 actions s) (do_times w opt sel actions n)
        (do_actions-IsReported sel 0 actions s d) (do_times-IsReported sel actions n)

  end_session-IsReported :
      (r : Session × Ending) → IsReported r.0 → IsReported (end_session w opt r).0
  unfolding end_session
  end_session-IsReported (s, going_on) d = add_called _ s d
  end_session-IsReported (s, returned sts) d = d
  end_session-IsReported (s, thrown) d = d

  -- If the rows of the summary table are the names and verdicts of the actions run so far, they
  -- are so after `do_yaml`, however it ends.
  pub do_yaml-IsReported :
      (actions : Option (List ActionNode)) (num_times : ℤ) (s : Session)
      → IsReported s
      → IsReported (do_yaml w opt actions num_times s).0
  unfolding do_yaml
  do_yaml-IsReported none num_times s d = d
  do_yaml-IsReported (some actions) num_times s d =
      end_session-IsReported
        (do_times w opt (selection w.stoi (find (codes "-s") opt)) actions (times w opt num_times)
          s)
        (do_times-IsReported _ actions _ s d)
