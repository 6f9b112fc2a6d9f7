-- ===== src/Exec/Indifferent.antt =====
-- That the status of `do_yaml` of rvs/src/rvsexec_do_yaml.cpp does not depend on the statuses of
-- the actions.
use mathlib.Core.Path.{subst}
use rocm_validation_suite.Prelude.{
  ℕ, zero, suc, ◌≡◌, refl, sym, ap, ◌∙◌, inl, inr, Bool, Option, none, some, List, [], ◌∷◌, ◌++◌,
  ◌+◌, Text, codes, Map, find, is_nil, ◌==◌, Bool-cases, Option-cases,
}
use rocm_validation_suite.Module.Load.{ActionProxy, action_create, action_destroy}
use rocm_validation_suite.Exec.Run.{ℤ, pos}
use rocm_validation_suite.Exec.Conf.{option_or}
use rocm_validation_suite.Exec.Properties.{Entry, do_yaml_properties}
use rocm_validation_suite.Exec.Selection.{Selection, is_selected, has_index, selection}
use rocm_validation_suite.Exec.Actions.{
  ActionNode, World, Session, Happening, created, Ending, going_on, returned, thrown, is_zero,
  set_sum, destroy_action, finish_action, with_properties, with_action, with_module, do_action,
  do_actions, do_times, end_session, do_yaml, consider, and_then, times,
}

-- The same but for what has been noted.
abbrev Alike : Session × Ending → Session × Ending → Type 0
Alike r r' = (r.0.modules ≡ r'.0.modules) × (r.0.polls ≡ r'.0.polls) × (r.1 ≡ r'.1)

-- What is noted, replaced.
abbrev noting : List Happening → List (Text × Bool) → Session → Session
noting hs rows s = record s { trace = hs; action_details = rows }

renoted :
    (s s' : Session)
    → s.modules ≡ s'.modules
    → s.polls ≡ s'.polls
    → noting s'.trace s'.action_details s ≡ s'
renoted s s' em ep = cc

-- The same world with other statuses of the actions.
abbrev pub with_status : (ℕ → List (Text × Text) → ℤ) → World → World
with_status status w = record w { run_status = status }

module _ (w : World) (opt : Map Text) (status : ℕ → List (Text × Text) → ℤ) where
  abbrev w' : World
  w' = with_status status w

  finish_action_modules :
      (v : World) (name : Text) (pa : ActionProxy) (calls : List (Text × Text)) (s : Session)
      → (finish_action v opt name pa calls s).modules ≡ (action_destroy v.host pa s.modules).0
  unfolding finish_action destroy_action
  finish_action_modules v name pa calls s =
      elim (Bool-cases (is_zero (v.run_status pa.plibaction calls))) [
        | inl z ↦ rw z refl
        | inr nz ↦ rw nz refl
      ]

  finish_action_polls :
      (v : World) (name : Text) (pa : ActionProxy) (calls : List (Text × Text)) (s : Session)
      → (finish_action v opt name pa calls s).polls ≡ s.polls
  unfolding finish_action destroy_action
  finish_action_polls v name pa calls s =
      elim (Bool-cases (is_zero (v.run_status pa.plibaction calls))) [
        | inl z ↦ rw z refl
        | inr nz ↦ rw nz refl
      ]

  set_sum_same :
      (plib : ℕ) (calls : List (Text × Text)) → set_sum w opt plib calls ≡ set_sum w' opt plib calls
  unfolding set_sum
  set_sum_same plib [] = refl
  set_sum_same plib (kv ∷ calls) = ap (λ n. w.set_status plib kv + n) (set_sum_same plib calls)

  module _ (hs : List Happening) (rows : List (Text × Bool)) where
    with_properties-Alike :
        (name : Text) (pa : ActionProxy) (sets : List (Text × Text) × Option ℕ) (s : Session)
        → Alike
            (with_properties w opt name pa sets s)
            (with_properties w' opt name pa sets (noting hs rows s))
    unfolding with_properties destroy_action
    with_properties-Alike name pa (calls, none) s = (refl, refl, refl)
    with_properties-Alike name pa (calls, some n) s =
        elim (Bool-cases (set_sum w opt pa.plibaction calls + n == 0)) [
          | inl z ↦
              let z' = ap (λ m. m + n == 0) (sym (set_sum_same pa.plibaction calls)) ∙ z in
              rw (z, z')
                (
                  finish_action_modules w name pa _ s
                      ∙ sym (finish_action_modules w' name pa _ (noting hs rows s)),
                  finish_action_polls w name pa _ s
                      ∙ sym (finish_action_polls w' name pa _ (noting hs rows s)),
                  refl,
                )
          | inr nz ↦
              let nz' = ap (λ m. m + n == 0) (sym (set_sum_same pa.plibaction calls)) ∙ nz in
              rw (nz, nz')
                (refl, refl, ap (λ m. returned (pos (m + n))) (set_sum_same pa.plibaction calls))
        ]

    with_action-Alike :
        (name rvsmodule : Text) (entries : List Entry) (pa : ActionProxy) (s : Session)
        → Alike
            (with_action w opt name rvsmodule entries pa s)
            (with_action w' opt name rvsmodule entries pa (noting hs rows s))
    unfolding with_action destroy_action
    with_action-Alike name rvsmodule entries pa s = elim (Bool-cases (has_index 1 pa.ifmap)) [
      | inl there ↦
          rw there
            (with_properties-Alike name pa (do_yaml_properties w.numbers opt rvsmodule entries) s)
      | inr absent ↦ rw absent (refl, refl, refl)
    ]

  with_module-Alike :
      (hs : List Happening) (rows : List (Text × Bool)) (name rvsmodule : Text)
      (entries : List Entry) (s : Session)
      → Alike
          (with_module w opt name rvsmodule entries s)
          (with_module w' opt name rvsmodule entries (noting hs rows s))
  unfolding with_module
  with_module-Alike hs rows name rvsmodule entries s = elim (Bool-cases (is_nil rvsmodule)) [
    | inl empty ↦ rw empty (refl, refl, refl)
    | inr given ↦ elim (Option-cases (action_create w.host rvsmodule s.modules).1) [
      | inl failed ↦ rw (given, failed) (refl, refl, refl)
      | inr (pa, made) ↦
          rw (given, made)
            (with_action-Alike (hs ++ created pa.plibaction ∷ []) rows name rvsmodule entries pa
              (record s {
                modules = (action_create w.host rvsmodule s.modules).0;
                trace = s.trace ++ created pa.plibaction ∷ [];
              }))
    ]
  ]

  do_action-Alike :
      (hs : List Happening) (rows : List (Text × Bool)) (name : Text) (a : ActionNode) (s : Session)
      → Alike (do_action w opt name a s) (do_action w' opt name a (noting hs rows s))
  unfolding do_action
  do_action-Alike hs rows name a s = elim (Bool-cases (w.stopping s.polls)) [
    | inl stop ↦ rw stop (refl, refl, refl)
    | inr go ↦ rw go (
        with_module-Alike hs rows name (option_or a.module_name []) a.entries
          (record s { polls = suc s.polls }))
  ]

  consider-Alike :
      (sel : Selection) (i : ℕ) (name : Option Text) (a : ActionNode) (hs : List Happening)
      (rows : List (Text × Bool)) (s : Session)
      → Alike (consider w opt sel i name a s) (consider w' opt sel i name a (noting hs rows s))
  unfolding consider
  consider-Alike sel i none a hs rows s = (refl, refl, refl)
  consider-Alike sel i (some name) a hs rows s = elim (Bool-cases (is_selected sel name i)) [
    | inl on ↦ rw on (do_action-Alike hs rows name a s)
    | inr off ↦ rw off (refl, refl, refl)
  ]

  and_then-Alike :
      (r r' : Session × Ending) (next next' : Session → Session × Ending)
      → Alike r r'
      → ((hs : List Happening) (rows : List (Text × Bool)) (s : Session)
          → Alike (next s) (next' (noting hs rows s)))
      → Alike (and_then r next) (and_then r' next')
  unfolding and_then
  and_then-Alike (s, going_on) (s', going_on) next next' (em, ep, ee) rest =
      subst (λ s'. Alike (next s) (next' s')) (renoted s s' em ep)
        (rest s'.trace s'.action_details s)
  and_then-Alike (s, returned sts) (s', returned sts') next next' (em, ep, ee) rest = (em, ep, ee)
  and_then-Alike (s, thrown) (s', thrown) next next' (em, ep, ee) rest = (em, ep, refl)
  and_then-Alike (s, going_on) (s', returned sts') next next' (em, ep, ee) rest = absurd cc
  and_then-Alike (s, going_on) (s', thrown) next next' (em, ep, ee) rest = absurd cc
  and_then-Alike (s, returned sts) (s', going_on) next next' (em, ep, ee) rest = absurd cc
  and_then-Alike (s, returned sts) (s', thrown) next next' (em, ep, ee) rest = absurd cc
  and_then-Alike (s, thrown) (s', going_on) next next' (em, ep, ee) rest = absurd cc
  and_then-Alike (s, thrown) (s', returned sts') next next' (em, ep, ee) rest = absurd cc

  do_actions-Alike :
      (sel : Selection) (i : ℕ) (actions : List ActionNode) (hs : List Happening)
      (rows : List (Text × Bool)) (s : Session)
      → Alike
          (do_actions w opt sel i actions s)
          (do_actions w' opt sel i actions (noting hs rows s))
  unfolding do_actions
  do_actions-Alike sel i [] hs rows s = (refl, refl, refl)
  do_actions-Alike sel i (a ∷ actions) hs rows s =
      and_then-Alike (consider w opt sel i a.name a s)
        (consider w' opt sel i a.name a (noting hs rows s)) (do_actions w opt sel (suc i) actions)
        (do_actions w' opt sel (suc i) actions) (consider-Alike sel i a.name a hs rows s)
        (do_actions-Alike sel (suc i) actions)

  do_times-Alike :
      (sel : Selection) (actions : List ActionNode) (n : ℕ) (hs : List Happening)
      (rows : List (Text × Bool)) (s : Session)
      → Alike (do_times w opt sel actions n s) (do_times w' opt sel actions n (noting hs rows s))
  unfolding do_times
  do_times-Alike sel actions zero hs rows s = (refl, refl, refl)
  do_times-Alike sel actions (suc n) hs rows s =
      and_then-Alike (do_actions w opt sel 0 actions s)
        (do_actions w' opt sel 0 actions (noting hs rows s)) (do_times w opt sel actions n)
        (do_times w' opt sel actions n) (do_actions-Alike sel 0 actions hs rows s)
        (do_times-Alike sel actions n)

  end_session-Alike :
      (r r' : Session × Ending) → Alike r r' → (end_session w opt r).1 ≡ (end_session w' opt r').1
  unfolding end_session
  end_session-Alike (s, going_on) (s', going_on) (em, ep, ee) = refl
  end_session-Alike (s, returned sts) (s', returned sts') (em, ep, ee) = ee
  end_session-Alike (s, thrown) (s', thrown) (em, ep, ee) = refl
  end_session-Alike (s, going_on) (s', returned sts') (em, ep, ee) = absurd cc
  end_session-Alike (s, going_on) (s', thrown) (em, ep, ee) = absurd cc
  end_session-Alike (s, returned sts) (s', going_on) (em, ep, ee) = absurd cc
  end_session-Alike (s, returned sts) (s', thrown) (em, ep, ee) = absurd cc
  end_session-Alike (s, thrown) (s', going_on) (em, ep, ee) = absurd cc
  end_session-Alike (s, thrown) (s', returned sts') (em, ep, ee) = absurd cc

  -- `do_yaml` ends the same way, with the same status if it returns, whatever the statuses of the
  -- actions that it runs are.
  pub do_yaml_indifferent :
      (actions : Option (List ActionNode)) (num_times : ℤ) (s : Session)
      → (do_yaml w opt actions num_times s).1
        ≡ (do_yaml (with_status status w) opt actions num_times s).1
  unfolding do_yaml
  do_yaml_indifferent none num_times s = refl
  do_yaml_indifferent (some actions) num_times s =
      let sel = selection w.stoi (find (codes "-s") opt) in
      let n = times w opt num_times in
      end_session-Alike (do_times w opt sel actions n s) (do_times w' opt sel actions n s)
        (do_times-Alike sel actions n s.trace s.action_details s)
