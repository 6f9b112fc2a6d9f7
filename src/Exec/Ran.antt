-- ===== src/Exec/Ran.antt =====
-- Which actions `do_yaml` of rvs/src/rvsexec_do_yaml.cpp has run when it returns 0.
use mathlib.Core.Path.{subst}
use mathlib.Core.List.{append-nil, append_assoc}
use rocm_validation_suite.Prelude.{
  ℕ, zero, suc, ◌≡◌, refl, sym, ap, ◌∙◌, inl, inr, Bool, true, false, Option, none, some, List, [],
  ◌∷◌, ◌++◌, ◌+◌, Text, codes, Map, find, is_nil, ◌==◌, arith, Bool-cases, Option-cases,
  if◌then◌else◌, map,
}
use rocm_validation_suite.Module.Load.{ActionProxy, action_create}
use rocm_validation_suite.Exec.Run.{ℤ, pos}
use rocm_validation_suite.Exec.Conf.{option_or}
use rocm_validation_suite.Exec.Properties.{Entry, do_yaml_properties}
use rocm_validation_suite.Exec.Reported.{IsReported, verdicts, do_yaml-IsReported}
use rocm_validation_suite.Exec.Selection.{Selection, is_selected, has_index, selection}
use rocm_validation_suite.Exec.Actions.{
  ActionNode, World, Session, created, Ending, going_on, returned, thrown, is_zero, set_sum,
  destroy_action, finish_action, with_properties, with_action, with_module, do_action, do_actions,
  do_times, end_session, do_yaml, consider, and_then, times,
}

-- The selected names of a list of actions, the first of which has the index i.
unfoldable pub chosen : Selection → ℕ → List ActionNode → List Text
chosen sel i [] = []
chosen sel i (a ∷ actions) =
    let rest = chosen sel (suc i) actions in
    elim a.name [ none ↦ rest | some name ↦ if is_selected sel name i then name ∷ rest else rest ]

unfoldable pub repeated : ℕ → List Text → List Text
repeated zero names = []
repeated (suc n) names = names ++ repeated n names

abbrev names : Session → List Text
names s = map (λ row. row.0) s.action_details

-- An ending without an error.
abbrev pub is_fine : Ending → Bool
is_fine going_on = true
is_fine (returned sts) = is_zero sts
is_fine thrown = false

-- A part that ends without an error goes on, and has run the actions of the list.
abbrev Runs : List Text → Session → Session × Ending → Type 0
Runs done s r = (r.1 ≡ going_on) × (names r.0 ≡ names s ++ done)

map-append :
    (rows : List (Text × Bool)) (row : Text × Bool)
    → map (λ row. row.0) (rows ++ row ∷ []) ≡ map (λ row. row.0) rows ++ row.0 ∷ []
map-append [] row = refl
map-append (r ∷ rows) row = ap (λ ns. r.0 ∷ ns) (map-append rows row)

module _ (w : World) (opt : Map Text) where
  finish_action_names :
      (name : Text) (pa : ActionProxy) (calls : List (Text × Text)) (s : Session)
      → names (finish_action w opt name pa calls s) ≡ names s ++ name ∷ []
  unfolding finish_action destroy_action
  finish_action_names name pa calls s =
      let sts = w.run_status pa.plibaction calls in
      elim (Bool-cases (is_zero sts)) [
        | inl z ↦ rw z (map-append s.action_details (name, true))
        | inr nz ↦ rw nz (map-append s.action_details (name, false))
      ]

  with_properties-Runs :
      (name : Text) (pa : ActionProxy) (sets : List (Text × Text) × Option ℕ) (s : Session)
      → is_fine (with_properties w opt name pa sets s).1 ≡ true
      → Runs (name ∷ []) s (with_properties w opt name pa sets s)
  unfolding with_properties
  with_properties-Runs name pa (calls, none) s h = absurd cc
  with_properties-Runs name pa (calls, some n) s h =
      elim (Bool-cases (set_sum w opt pa.plibaction calls + n == 0)) [
        | inl z ↦ (rw z refl, rw z (finish_action_names name pa _ s))
        | inr nz ↦ absurd (ground (arith, h, nz))
      ]

  with_action-Runs :
      (name rvsmodule : Text) (entries : List Entry) (pa : ActionProxy) (s : Session)
      → is_fine (with_action w opt name rvsmodule entries pa s).1 ≡ true
      → Runs (name ∷ []) s (with_action w opt name rvsmodule entries pa s)
  unfolding with_action
  with_action-Runs name rvsmodule entries pa s h = elim (Bool-cases (has_index 1 pa.ifmap)) [
    | inl there ↦ rw there (
        with_properties-Runs name pa (do_yaml_properties w.numbers opt rvsmodule entries) s
          (ground (arith, h, there)))
    | inr absent ↦ absurd (ground (arith, h, absent))
  ]

  with_module-Runs :
      (name rvsmodule : Text) (entries : List Entry) (s : Session)
      → is_fine (with_module w opt name rvsmodule entries s).1 ≡ true
      → Runs (name ∷ []) s (with_module w opt name rvsmodule entries s)
  unfolding with_module
  with_module-Runs name rvsmodule entries s h = elim (Bool-cases (is_nil rvsmodule)) [
    | inl empty ↦ absurd (ground (arith, h, empty))
    | inr given ↦ elim (Option-cases (action_create w.host rvsmodule s.modules).1) [
      | inl failed ↦ absurd (ground (arith, h, given, failed))
      | inr (pa, made) ↦
          rw (given, made)
            (with_action-Runs name rvsmodule entries pa
              (record s {
                modules = (action_create w.host rvsmodule s.modules).0;
                trace = s.trace ++ created pa.plibaction ∷ [];
              })
              (ground (arith, h, given, made)))
    ]
  ]

  do_action-Runs :
      (name : Text) (a : ActionNode) (s : Session)
      → is_fine (do_action w opt name a s).1 ≡ true
      → Runs (name ∷ []) s (do_action w opt name a s)
  unfolding do_action
  do_action-Runs name a s h = elim (Bool-cases (w.stopping s.polls)) [
    | inl stop ↦ absurd (ground (arith, h, stop))
    | inr go ↦ rw go (
        with_module-Runs name (option_or a.module_name []) a.entries
          (record s { polls = suc s.polls }) (ground (arith, h, go)))
  ]

  and_then-Runs :
      (here there : List Text) (s : Session) (r : Session × Ending)
      (next : Session → Session × Ending)
      → (is_fine r.1 ≡ true → Runs here s r)
      → ((s' : Session) → is_fine (next s').1 ≡ true → Runs there s' (next s'))
      → is_fine (and_then r next).1 ≡ true
      → Runs (here ++ there) s (and_then r next)
  unfolding and_then
  and_then-Runs here there s (s', going_on) next first rest h =
      let (on, ran_rest) = rest s' h in
      (on, ran_rest ∙ (ap (λ ns. ns ++ there) (first refl).1 ∙ append_assoc (names s) here there))
  and_then-Runs here there s (s', returned sts) next first rest h =
      absurd (ground (arith, (first h).0))
  and_then-Runs here there s (s', thrown) next first rest h = absurd cc

  -- The name of an action, if it is selected.
  picked : Selection → ℕ → Option Text → List Text
  picked sel i none = []
  picked sel i (some name) = if is_selected sel name i then name ∷ [] else []

  consider-Runs :
      (sel : Selection) (i : ℕ) (name : Option Text) (a : ActionNode) (s : Session)
      → is_fine (consider w opt sel i name a s).1 ≡ true
      → Runs (picked sel i name) s (consider w opt sel i name a s)
  unfolding consider picked
  consider-Runs sel i none a s h = absurd cc
  consider-Runs sel i (some name) a s h = elim (Bool-cases (is_selected sel name i)) [
    | inl on ↦ rw on (do_action-Runs name a s (ground (arith, h, on)))
    | inr off ↦ rw off (refl, sym (append-nil (names s)))
  ]

  picked-chosen :
      (sel : Selection) (i : ℕ) (a : ActionNode) (actions : List ActionNode)
      → picked sel i a.name ++ chosen sel (suc i) actions ≡ chosen sel i (a ∷ actions)
  unfolding chosen picked
  picked-chosen sel i a actions = ground arith

  do_actions-Runs :
      (sel : Selection) (i : ℕ) (actions : List ActionNode) (s : Session)
      → is_fine (do_actions w opt sel i actions s).1 ≡ true
      → Runs (chosen sel i actions) s (do_actions w opt sel i actions s)
  unfolding do_actions chosen
  do_actions-Runs sel i [] s h = (refl, sym (append-nil (names s)))
  do_actions-Runs sel i (a ∷ actions) s h =
      let next = do_actions w opt sel (suc i) actions in
      subst (λ done. Runs done s (and_then (consider w opt sel i a.name a s) next))
        (picked-chosen sel i a actions)
        (and_then-Runs (picked sel i a.name) (chosen sel (suc i) actions) s
          (consider w opt sel i a.name a s) next (consider-Runs sel i a.name a s)
          (do_actions-Runs sel (suc i) actions) h)

  do_times-Runs :
      (sel : Selection) (actions : List ActionNode) (n : ℕ) (s : Session)
      → is_fine (do_times w opt sel actions n s).1 ≡ true
      → Runs (repeated n (chosen sel 0 actions)) s (do_times w opt sel actions n s)
  unfolding do_times repeated
  do_times-Runs sel actions zero s h = (refl, sym (append-nil (names s)))
  do_times-Runs sel actions (suc n) s h =
      and_then-Runs (chosen sel 0 actions) (repeated n (chosen sel 0 actions)) s
        (do_actions w opt sel 0 actions s) (do_times w opt sel actions n)
        (do_actions-Runs sel 0 actions s) (do_times-Runs sel actions n) h

  pub do_times_goes_on :
      (sel : Selection) (actions : List ActionNode) (n : ℕ) (s : Session)
      → is_fine (do_times w opt sel actions n s).1 ≡ true
      → (do_times w opt sel actions n s).1 ≡ going_on
  do_times_goes_on sel actions n s h = (do_times-Runs sel actions n s h).0

  end_session-Runs :
      (done : List Text) (s : Session) (r : Session × Ending)
      → (is_fine r.1 ≡ true → Runs done s r)
      → (end_session w opt r).1 ≡ returned (pos 0)
      → names (end_session w opt r).0 ≡ names s ++ done
  unfolding end_session
  end_session-Runs done s (s', going_on) here h = (here refl).1
  end_session-Runs done s (s', returned sts) here h = (here (ap is_fine h)).1
  end_session-Runs done s (s', thrown) here h = absurd cc

  -- Where the summary table is true to the actions run so far and `do_yaml` returns 0, the actions
  -- that it has run are the selected ones of the file in their order, all of them once more for
  -- each of the `num_times` rounds.
  pub do_yaml_runs :
      (actions : List ActionNode) (num_times : ℤ) (s : Session)
      → IsReported s
      → (do_yaml w opt (some actions) num_times s).1 ≡ returned (pos 0)
      → map (λ row. row.0) (verdicts (do_yaml w opt (some actions) num_times s).0.trace)
        ≡ map (λ row. row.0) (verdicts s.trace)
          ++ repeated
              (times w opt num_times)
              (chosen (selection w.stoi (find (codes "-s") opt)) 0 actions)
  unfolding do_yaml
  do_yaml_runs actions num_times s d h =
      let sel = selection w.stoi (find (codes "-s") opt) in
      let n = times w opt num_times in
      ap (map (λ row. row.0)) (do_yaml-IsReported w opt (some actions) num_times s d)
      ∙ (end_session-Runs (repeated n (chosen sel 0 actions)) s (do_times w opt sel actions n s)
            (do_times-Runs sel actions n s) h
          ∙ ap (λ rows. map (λ row. row.0) rows ++ repeated n (chosen sel 0 actions)) (sym d))
