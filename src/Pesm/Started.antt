-- ===== src/Pesm/Started.antt =====
-- Which worker runs after a sequence of actions of pesm.so/src/action.cpp.
use rocm_validation_suite.Prelude.{
  ℕ, ◌≡◌, refl, ◌∙◌, inl, inr, Bool, true, false, not, ◌&&◌, Option, none, some, List, [], ◌∷◌,
  codes, arith, Bool-cases, if◌then◌else◌,
}
use rocm_validation_suite.Action.{has_property}
use rocm_validation_suite.Pesm.Worker.{Settings}
use rocm_validation_suite.Pesm.Action.{
  PesmAction, new_worker, read_pesm_keys, settle_worker, run_pesm, run_all,
}

abbrev is_none : {A : Type 0} → Option A → Bool
is_none none = true
is_none (some x) = false

-- An action that is not for the list of GPUs, and whose keys are accepted.
abbrev pub is_valid : PesmAction → Bool
is_valid a = is_none (has_property (codes "do_gpu_list") a.base) && (read_pesm_keys a).1

abbrev pub stops : PesmAction → Bool
stops a = is_valid a && not (read_pesm_keys a).0.prop_monitor

abbrev pub starts : PesmAction → Bool
starts a = is_valid a && (read_pesm_keys a).0.prop_monitor

-- The actions after the last that stops, and whether one does.
pub since_stop : List PesmAction → List PesmAction × Bool
since_stop [] = ([], false)
since_stop (a ∷ actions) =
    let rest = since_stop actions in
    if rest.1 then rest else if stops a then (actions, true) else (a ∷ actions, false)

-- The worker of the first action that starts one.
pub first_start : List PesmAction → Option Settings
first_start [] = none
first_start (a ∷ actions) =
    let rest = first_start actions in
    if starts a then some (new_worker (read_pesm_keys a).0) else rest

-- A worker that is running, or else another.
abbrev or_else : Option Settings → Option Settings → Option Settings
or_else none other = other
or_else (some worker) other = some worker

run_starts :
    (listed : ℕ) (a : PesmAction) (o : Option Settings)
    → stops a ≡ false
    → (run_pesm listed a o).1 ≡ or_else o (first_start (a ∷ []))
unfolding run_pesm settle_worker first_start
run_starts listed a none h = ground (arith, h)
run_starts listed a (some worker) h = ground (arith, h)

run_stops :
    (listed : ℕ) (a : PesmAction) (o : Option Settings)
    → stops a ≡ true
    → (run_pesm listed a o).1 ≡ none
unfolding run_pesm settle_worker
run_stops listed a o h = ground (arith, h)

or_else_first :
    (a : PesmAction) (actions : List PesmAction) (o : Option Settings)
    → or_else (or_else o (first_start (a ∷ []))) (first_start actions)
      ≡ or_else o (first_start (a ∷ actions))
unfolding first_start
or_else_first a actions none = elim (Bool-cases (starts a)) [
  | inl on ↦ rw on refl
  | inr off ↦ rw off refl
]
or_else_first a actions (some worker) = refl

-- What is left of a worker, and of the actions.
abbrev expected : List PesmAction → Option Settings → Option Settings
expected actions o =
    if (since_stop actions).1
    then first_start (since_stop actions).0
    else or_else o (first_start actions)

expected_step :
    (listed : ℕ) (a : PesmAction) (actions : List PesmAction) (o : Option Settings)
    → expected actions (run_pesm listed a o).1 ≡ expected (a ∷ actions) o
unfolding since_stop
expected_step listed a actions o = elim (Bool-cases (since_stop actions).1) [
  | inl later ↦ rw later refl
  | inr no_later ↦ elim (Bool-cases (stops a)) [
    | inl now ↦ rw (no_later, now, run_stops listed a o now) refl
    | inr other ↦ rw (no_later, other, run_starts listed a o other) (or_else_first a actions o)
  ]
]

run_all_expected :
    (listed : ℕ) (actions : List PesmAction) (o : Option Settings)
    → run_all listed actions o ≡ expected actions o
unfolding run_all since_stop first_start
run_all_expected listed [] none = refl
run_all_expected listed [] (some worker) = refl
run_all_expected listed (a ∷ actions) o =
    run_all_expected listed actions (run_pesm listed a o).1 ∙ expected_step listed a actions o

unstopped :
    (actions : List PesmAction) → (since_stop actions).1 ≡ false → (since_stop actions).0 ≡ actions
unfolding since_stop
unstopped [] h = refl
unstopped (a ∷ actions) h = elim (Bool-cases (since_stop actions).1) [
  | inl later ↦ absurd (ground (arith, h, later))
  | inr no_later ↦ elim (Bool-cases (stops a)) [
    | inl now ↦ absurd (ground (arith, h, no_later, now))
    | inr other ↦ rw (no_later, other) refl
  ]
]

-- After any sequence of actions, from no worker on, the worker that runs is that of the first action
-- that starts one after the last action that stops it, and none runs where there is no such action.
pub run_all_first :
    (listed : ℕ) (actions : List PesmAction)
    → run_all listed actions none ≡ first_start (since_stop actions).0
run_all_first listed actions = elim (Bool-cases (since_stop actions).1) [
  | inl stopped ↦ run_all_expected listed actions none ∙ rw stopped refl
  | inr running ↦
      run_all_expected listed actions none ∙ rw (running, unstopped actions running) refl
]
