-- ===== src/Api/Moves.antt =====
-- How the state of each session of rvs/src/rvs_interface.cpp moves.
use mathlib.Core.Path.{subst}
use rocm_validation_suite.Prelude.{
  ◌≢◌, ℕ, zero, suc, ◌≡◌, refl, sym, inl, inr, Bool, true, false, Option, none, some, List, [], ◌∷◌,
  Map, Text, Bool-cases, Option-cases,
}
use rocm_validation_suite.Api.State.{
  SessionState, idle, created, ready, initiated, inprogress, completed, Property, default_conf,
  custom_conf, custom_action, unknown_type, Result, in_progress, complete, RvsSession, cleared, Rvs,
  at, replace, rvs_validate_session, rvs_get_session_instance, is_idle,
}
use rocm_validation_suite.Api.Requests.{
  Executor, rvs_session_create, takes_property, set_known, set_of_type, rvs_session_set_property,
  options_of, is_ready, is_inprogress, execute_property, rvs_session_execute, rvs_session_destroy,
  rvs_terminate, Request, initialize, create, set_property, execute, destroy, terminate, request,
}
use rocm_validation_suite.Api.Slots.{validate_at, instance_at}
use rocm_validation_suite.Api.Callbacks.{state_after, launch_sessions}

-- The states of a session that is executed.
abbrev pub is_running : SessionState → Bool
is_running idle = false
is_running created = false
is_running ready = false
is_running initiated = true
is_running inprogress = true
is_running completed = true

-- One request takes a session from the one state to the other.
pub data Move : SessionState → SessionState → Type 0 where
  stay : {a : SessionState} → Move a a
  be_created : Move idle created
  be_set : Move created ready
  be_set_again : Move completed ready
  be_run : {b : SessionState} → is_running b ≡ true → Move ready b
  be_freed : {a : SessionState} → is_inprogress a ≡ false → Move a idle

-- The same number of sessions, each of which makes such a move.
abbrev pub Moves : List RvsSession → List RvsSession → Type 0
Moves [] [] = Unit
Moves [] (s' ∷ ss') = ⊥
Moves (s ∷ ss) [] = ⊥
Moves (s ∷ ss) (s' ∷ ss') = Move s.state s'.state × Moves ss ss'

Moves-refl : (ss : List RvsSession) → Moves ss ss
Moves-refl [] = tt
Moves-refl (s ∷ ss) = (stay, Moves-refl ss)

Moves-replace :
    (i : ℕ) (s' : RvsSession) (ss : List RvsSession)
    → Move (at i ss).state s'.state
    → Moves ss (replace i s' ss)
unfolding at replace
Moves-replace i s' [] m = tt
Moves-replace zero s' (s ∷ ss) m = (m, Moves-refl ss)
Moves-replace (suc i) s' (s ∷ ss) m = (stay, Moves-replace i s' ss m)

set_Move : (state : SessionState) → takes_property state ≡ true → Move state ready
set_Move idle h = absurd cc
set_Move created h = be_set
set_Move ready h = absurd cc
set_Move initiated h = absurd cc
set_Move inprogress h = absurd cc
set_Move completed h = be_set_again

created_Move : (state : SessionState) → is_idle state ≡ true → Move state created
created_Move idle h = be_created
created_Move created h = absurd cc
created_Move ready h = absurd cc
created_Move initiated h = absurd cc
created_Move inprogress h = absurd cc
created_Move completed h = absurd cc

run_Move : (state b : SessionState) → is_ready state ≡ true → is_running b ≡ true → Move state b
run_Move idle b h k = absurd cc
run_Move created b h k = absurd cc
run_Move ready b h k = be_run k
run_Move initiated b h k = absurd cc
run_Move inprogress b h k = absurd cc
run_Move completed b h k = absurd cc

running_after :
    (state : SessionState) (results : List Result)
    → is_running state ≡ true
    → is_running (state_after state results) ≡ true
unfolding state_after
running_after state [] h = h
running_after state (in_progress log ∷ results) h = running_after inprogress results refl
running_after state (complete log ∷ results) h = running_after completed results refl

create-Moves :
    (given : Bool) (cb : Option ℕ) (r : Rvs)
    → Moves r.sessions (rvs_session_create given cb r).0.sessions
unfolding rvs_session_create
create-Moves given none r = Moves-refl r.sessions
create-Moves given (some cb) r = elim (Bool-cases given) [
  | inr null ↦ rw null (Moves-refl r.sessions)
  | inl there ↦ elim (Bool-cases r.initialized) [
    | inr off ↦ rw (there, off) (Moves-refl r.sessions)
    | inl on ↦ elim (Option-cases (rvs_get_session_instance r.sessions)) [
      | inl full ↦ rw (there, on, full) (Moves-refl r.sessions)
      | inr (i, free) ↦
          rw (there, on, free)
            (Moves-replace i _ r.sessions
              (created_Move (at i r.sessions).state (instance_at i r.sessions free)))
    ]
  ]
]

set_known-Moves :
    (i : ℕ) (property : Property) (r : Rvs) → Moves r.sessions (set_known i property r).0.sessions
unfolding set_known
set_known-Moves i property r = elim (Bool-cases (takes_property (at i r.sessions).state)) [
  | inl fit ↦ rw fit (Moves-replace i _ r.sessions (set_Move (at i r.sessions).state fit))
  | inr unfit ↦ rw unfit (Moves-refl r.sessions)
]

set_of_type-Moves :
    (i : ℕ) (property : Property) (r : Rvs) → Moves r.sessions (set_of_type i property r).0.sessions
unfolding set_of_type
set_of_type-Moves i (default_conf m) r = set_known-Moves i (default_conf m) r
set_of_type-Moves i (custom_conf path) r = set_known-Moves i (custom_conf path) r
set_of_type-Moves i (custom_action config) r = set_known-Moves i (custom_action config) r
set_of_type-Moves i (unknown_type n) r = Moves-refl r.sessions

set_property-Moves :
    (id : ℕ) (property : Option Property) (r : Rvs)
    → Moves r.sessions (rvs_session_set_property id property r).0.sessions
unfolding rvs_session_set_property
set_property-Moves id none r = Moves-refl r.sessions
set_property-Moves id (some property) r = elim (Bool-cases r.initialized) [
  | inr off ↦ rw off (Moves-refl r.sessions)
  | inl on ↦ elim (Option-cases (rvs_validate_session id r.sessions)) [
    | inl no_one ↦ rw (on, no_one) (Moves-refl r.sessions)
    | inr (i, found) ↦ rw (on, found) (set_of_type-Moves i property r)
  ]
]

destroy-Moves : (id : ℕ) (r : Rvs) → Moves r.sessions (rvs_session_destroy id r).0.sessions
unfolding rvs_session_destroy
destroy-Moves id r = elim (Bool-cases r.initialized) [
  | inr off ↦ rw off (Moves-refl r.sessions)
  | inl on ↦ elim (Option-cases (rvs_validate_session id r.sessions)) [
    | inl no_one ↦ rw (on, no_one) (Moves-refl r.sessions)
    | inr (i, found) ↦ elim (Bool-cases (is_inprogress (at i r.sessions).state)) [
      | inl busy ↦ rw (on, found, busy) (Moves-refl r.sessions)
      | inr fit ↦ rw (on, found, fit) (Moves-replace i cleared r.sessions (be_freed fit))
    ]
  ]
]

terminate-Moves : (r : Rvs) → Moves r.sessions (rvs_terminate r).0.sessions
unfolding rvs_terminate
terminate-Moves r = elim (Bool-cases r.initialized) [
  | inl on ↦ rw on (Moves-refl r.sessions)
  | inr off ↦ rw off (Moves-refl r.sessions)
]

module _ (run : Executor) where
  execute_property-Moves :
      (id i : ℕ) (o : Option (Map Text)) (r : Rvs)
      → rvs_validate_session id r.sessions ≡ some i
      → is_ready (at i r.sessions).state ≡ true
      → Moves r.sessions (execute_property run id i o r).0.sessions
  unfolding execute_property
  execute_property-Moves id i none r e h = Moves-refl r.sessions
  execute_property-Moves id i (some opt) r e h =
      subst (Moves r.sessions)
        (sym (launch_sessions run id i opt r (validate_at id i r.sessions e) e))
        (Moves-replace i _ r.sessions
          (run_Move (at i r.sessions).state _ h (running_after initiated _ refl)))

  execute-Moves : (id : ℕ) (r : Rvs) → Moves r.sessions (rvs_session_execute run id r).0.sessions
  unfolding rvs_session_execute
  execute-Moves id r = elim (Bool-cases r.initialized) [
    | inr off ↦ rw off (Moves-refl r.sessions)
    | inl on ↦ elim (Option-cases (rvs_validate_session id r.sessions)) [
      | inl no_one ↦ rw (on, no_one) (Moves-refl r.sessions)
      | inr (i, found) ↦ elim (Bool-cases (is_ready (at i r.sessions).state)) [
        | inr early ↦ rw (on, found, early) (Moves-refl r.sessions)
        | inl fit ↦
            rw (on, found, fit)
              (execute_property-Moves id i (options_of (at i r.sessions).property) r found fit)
      ]
    ]
  ]

  -- Every request but `rvs_initialize` takes each session along the moves of the protocol: a free
  -- one is created, a created or completed one gets a property, a ready one is executed and then
  -- is initiated, in progress or completed, and one that is not in progress is freed.
  pub request-Moves :
      (q : Request) (r : Rvs) → q ≢ initialize → Moves r.sessions (request run q r).0.sessions
  unfolding request
  request-Moves initialize r h = absurd (h refl)
  request-Moves (create given cb) r h = create-Moves given cb r
  request-Moves (set_property id property) r h = set_property-Moves id property r
  request-Moves (execute id) r h = execute-Moves id r
  request-Moves (destroy id) r h = destroy-Moves id r
  request-Moves terminate r h = terminate-Moves r
