-- ===== src/Exec/Objects.antt =====
-- The action objects that `do_yaml` of rvs/src/rvsexec_do_yaml.cpp creates and destroys.
use rocm_validation_suite.Prelude.{
  ℕ, zero, suc, ◌≡◌, refl, ap, ◌∙◌, inl, inr, Bool, true, false, Option, none, some, List, [], ◌∷◌,
  ◌++◌, Text, codes, Map, find, is_nil, ◌==◌, arith, ◌+◌, Option-cases, Bool-cases,
}
use rocm_validation_suite.Module.Made.{create_found, destroy_found}
use rocm_validation_suite.Module.Load.{Module, ActionProxy, remove_handle, action_create}
use rocm_validation_suite.Exec.Run.{ℤ}
use rocm_validation_suite.Exec.Conf.{option_or}
use rocm_validation_suite.Exec.Properties.{Entry, do_yaml_properties}
use rocm_validation_suite.Exec.Selection.{Selection, is_selected, has_index, selection}
use rocm_validation_suite.Exec.Actions.{
  ActionNode, World, Session, Happening, created, destroyed, ran, called_back, Ending, going_on,
  returned, thrown, add_trace, is_zero, set_sum, destroy_action, finish_action, with_properties,
  with_action, with_module, do_action, do_actions, do_times, end_session, do_yaml, consider,
  and_then, times,
}

-- The objects created and not destroyed after a trace, the last one first.
unfoldable pub alive : List ℕ → List Happening → List ℕ
alive objs [] = objs
alive objs (created p ∷ hs) = alive (p ∷ objs) hs
alive objs (destroyed p ∷ hs) = alive (remove_handle p objs) hs
alive objs (ran name sts ∷ hs) = alive objs hs
alive objs (called_back log ∷ hs) = alive objs hs

abbrev pub is_thrown : Ending → Bool
is_thrown going_on = false
is_thrown (returned sts) = false
is_thrown thrown = true

alive-append :
    (objs : List ℕ) (hs ks : List Happening) → alive objs (hs ++ ks) ≡ alive (alive objs hs) ks
unfolding alive
alive-append objs [] ks = refl
alive-append objs (created p ∷ hs) ks = alive-append (p ∷ objs) hs ks
alive-append objs (destroyed p ∷ hs) ks = alive-append (remove_handle p objs) hs ks
alive-append objs (ran name sts ∷ hs) ks = alive-append objs hs ks
alive-append objs (called_back log ∷ hs) ks = alive-append objs hs ks

remove_first : (p : ℕ) (objs : List ℕ) → remove_handle p (p ∷ objs) ≡ objs
remove_first p objs = ground arith

abbrev objects : Session → List ℕ
objects s = alive [] s.trace

add_quiet :
    (h : Happening) (s : Session)
    → alive (objects s) (h ∷ []) ≡ objects s
    → objects (add_trace (h ∷ []) s) ≡ objects s
add_quiet h s e = alive-append [] s.trace (h ∷ []) ∙ e

module _ (w : World) (opt : Map Text) where
  -- An object that the session knows how to destroy.
  abbrev Destroyable : ActionProxy → Session → Type 0
  Destroyable pa s = (m : Module) × (find pa.name s.modules.modulemap ≡ some m)

  objects-destroy_action :
      (pa : ActionProxy) (s : Session)
      → Destroyable pa s
      → objects (destroy_action w opt pa s) ≡ remove_handle pa.plibaction (objects s)
  unfolding destroy_action alive
  objects-destroy_action pa s (m, there) =
      rw (destroy_found w.host pa s.modules m there)
        (alive-append [] s.trace (destroyed pa.plibaction ∷ []))

  objects-finish_action :
      (name : Text) (pa : ActionProxy) (calls : List (Text × Text)) (s : Session)
      → Destroyable pa s
      → objects (finish_action w opt name pa calls s) ≡ remove_handle pa.plibaction (objects s)
  unfolding finish_action alive
  objects-finish_action name pa calls s d =
      let sts = w.run_status pa.plibaction calls in
      let s1 = add_trace (ran name sts ∷ []) s in
      let gone =
        objects-destroy_action pa s1 d
        ∙ ap (remove_handle pa.plibaction) (add_quiet (ran name sts) s refl) in
      elim (Bool-cases (is_zero sts)) [
        | inl z ↦ rw z gone
        | inr nz ↦ rw nz (add_quiet (called_back _) (destroy_action w opt pa s1) refl ∙ gone)
      ]

  objects-with_properties :
      (name : Text) (pa : ActionProxy) (sets : List (Text × Text) × Option ℕ) (s : Session)
      → Destroyable pa s
      → is_thrown (with_properties w opt name pa sets s).1 ≡ false
      → objects (with_properties w opt name pa sets s).0 ≡ remove_handle pa.plibaction (objects s)
  unfolding with_properties
  objects-with_properties name pa (calls, none) s d h = absurd cc
  objects-with_properties name pa (calls, some n) s d h =
      elim (Bool-cases (set_sum w opt pa.plibaction calls + n == 0)) [
        | inl z ↦ rw z (objects-finish_action name pa _ s d)
        | inr nz ↦ rw nz (objects-destroy_action pa s d)
      ]

  objects-with_action :
      (name rvsmodule : Text) (entries : List Entry) (pa : ActionProxy) (s : Session)
      → Destroyable pa s
      → is_thrown (with_action w opt name rvsmodule entries pa s).1 ≡ false
      → objects (with_action w opt name rvsmodule entries pa s).0
        ≡ remove_handle pa.plibaction (objects s)
  unfolding with_action alive
  objects-with_action name rvsmodule entries pa s d h = elim (Bool-cases (has_index 1 pa.ifmap)) [
    | inl there ↦ rw there (
        objects-with_properties name pa (do_yaml_properties w.numbers opt rvsmodule entries) s d
          (ground (arith, h, there)))
    | inr absent ↦
        rw absent (
          add_quiet (called_back _) (destroy_action w opt pa s) refl
          ∙ objects-destroy_action pa s d)
  ]

  objects-with_module :
      (name rvsmodule : Text) (entries : List Entry) (s : Session)
      → is_thrown (with_module w opt name rvsmodule entries s).1 ≡ false
      → objects (with_module w opt name rvsmodule entries s).0 ≡ objects s
  unfolding with_module alive
  objects-with_module name rvsmodule entries s h = elim (Bool-cases (is_nil rvsmodule)) [
    | inl empty ↦ rw empty (add_quiet (called_back _) s refl)
    | inr given ↦ elim (Option-cases (action_create w.host rvsmodule s.modules).1) [
      | inl failed ↦ rw (given, failed) (add_quiet (called_back _) s refl)
      | inr (pa, made) ↦
          let (named, (m, found)) = create_found w.host rvsmodule s.modules pa made in
          let s' : Session = record s {
            modules = (action_create w.host rvsmodule s.modules).0;
            trace = s.trace ++ created pa.plibaction ∷ [];
          } in
          rw (given, made)
            (objects-with_action name rvsmodule entries pa s'
                (m, ap (λ n. find n s'.modules.modulemap) named ∙ found)
                (ground (arith, h, given, made))
              ∙ (ap (remove_handle pa.plibaction)
                    (alive-append [] s.trace (created pa.plibaction ∷ []))
                  ∙ remove_first pa.plibaction (objects s)))
    ]
  ]

  objects-do_action :
      (name : Text) (a : ActionNode) (s : Session)
      → is_thrown (do_action w opt name a s).1 ≡ false
      → objects (do_action w opt name a s).0 ≡ objects s
  unfolding do_action alive
  objects-do_action name a s h = elim (Bool-cases (w.stopping s.polls)) [
    | inl stop ↦ rw stop (add_quiet (called_back _) s refl)
    | inr go ↦ rw go (
        objects-with_module name (option_or a.module_name []) a.entries
          (record s { polls = suc s.polls }) (ground (arith, h, go)))
  ]

  objects-consider :
      (sel : Selection) (i : ℕ) (name : Option Text) (a : ActionNode) (s : Session)
      → is_thrown (consider w opt sel i name a s).1 ≡ false
      → objects (consider w opt sel i name a s).0 ≡ objects s
  unfolding consider
  objects-consider sel i none a s h = absurd cc
  objects-consider sel i (some name) a s h = elim (Bool-cases (is_selected sel name i)) [
    | inl on ↦ rw on (objects-do_action name a s (ground (arith, h, on)))
    | inr off ↦ rw off refl
  ]

  objects-and_then :
      (objs : List ℕ) (r : Session × Ending) (next : Session → Session × Ending)
      → (is_thrown r.1 ≡ false → objects r.0 ≡ objs)
      → ((s : Session) → is_thrown (next s).1 ≡ false → objects (next s).0 ≡ objects s)
      → is_thrown (and_then r next).1 ≡ false
      → objects (and_then r next).0 ≡ objs
  unfolding and_then
  objects-and_then objs (s, going_on) next here rest h = rest s h ∙ here refl
  objects-and_then objs (s, returned sts) next here rest h = here refl
  objects-and_then objs (s, thrown) next here rest h = absurd cc

  objects-do_actions :
      (sel : Selection) (i : ℕ) (actions : List ActionNode) (s : Session)
      → is_thrown (do_actions w opt sel i actions s).1 ≡ false
      → objects (do_actions w opt sel i actions s).0 ≡ objects s
  unfolding do_actions
  objects-do_actions sel i [] s h = refl
  objects-do_actions sel i (a ∷ actions) s h =
      objects-and_then (objects s) (consider w opt sel i a.name a s)
        (do_actions w opt sel (suc i) actions) (objects-consider sel i a.name a s)
        (objects-do_actions sel (suc i) actions) h

  objects-do_times :
      (sel : Selection) (actions : List ActionNode) (n : ℕ) (s : Session)
      → is_thrown (do_times w opt sel actions n s).1 ≡ false
      → objects (do_times w opt sel actions n s).0 ≡ objects s
  unfolding do_times
  objects-do_times sel actions zero s h = refl
  objects-do_times sel actions (suc n) s h =
      objects-and_then (objects s) (do_actions w opt sel 0 actions s) (do_times w opt sel actions n)
        (objects-do_actions sel 0 actions s) (objects-do_times sel actions n) h

  objects-end_session :
      (objs : List ℕ) (r : Session × Ending)
      → (is_thrown r.1 ≡ false → objects r.0 ≡ objs)
      → is_thrown (end_session w opt r).1 ≡ false
      → objects (end_session w opt r).0 ≡ objs
  unfolding end_session alive
  objects-end_session objs (s, going_on) here h = add_quiet (called_back _) s refl ∙ here refl
  objects-end_session objs (s, returned sts) here h = here refl
  objects-end_session objs (s, thrown) here h = absurd cc

  -- Unless `do_yaml` ends by an exception, the objects of actions that are created and not
  -- destroyed are the same after it as before it, whether it returns 0 or an error.
  pub do_yaml_objects :
      (actions : Option (List ActionNode)) (num_times : ℤ) (s : Session)
      → is_thrown (do_yaml w opt actions num_times s).1 ≡ false
      → alive [] (do_yaml w opt actions num_times s).0.trace ≡ alive [] s.trace
  unfolding do_yaml
  do_yaml_objects none num_times s h = refl
  do_yaml_objects (some actions) num_times s h =
      objects-end_session (objects s)
        (do_times w opt (selection w.stoi (find (codes "-s") opt)) actions (times w opt num_times)
          s)
        (objects-do_times _ actions _ s) h
