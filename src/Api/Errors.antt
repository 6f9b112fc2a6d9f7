-- ===== src/Api/Errors.antt =====
-- The errors of rvs/src/rvs_interface.cpp.
use rocm_validation_suite.Prelude.{
  ℕ, ◌≡◌, refl, inl, inr, Bool, true, false, Option, none, some, Map, Text, arith, Bool-cases,
  Option-cases,
}
use rocm_validation_suite.Api.State.{
  Status, success, failed, invalid_argument, invalid_state, invalid_session, invalid_session_state,
  Property, default_conf, custom_conf, custom_action, unknown_type, Rvs, at, rvs_validate_session,
}
use rocm_validation_suite.Api.Requests.{
  Executor, rvs_initialize, rvs_session_create, set_known, set_of_type, rvs_session_set_property,
  options_of, is_ready, launch, execute_property, rvs_session_execute, rvs_session_destroy,
  rvs_terminate, Request, initialize, create, set_property, execute, destroy, terminate, request,
}

-- One of the four statuses for an invalid call.
abbrev pub is_invalid : Status → Bool
is_invalid success = false
is_invalid failed = false
is_invalid invalid_argument = true
is_invalid invalid_state = true
is_invalid invalid_session = true
is_invalid invalid_session_state = true

initialize_invalid : (r : Rvs) → is_invalid (rvs_initialize r).1 ≡ true → (rvs_initialize r).0 ≡ r
unfolding rvs_initialize
initialize_invalid r h = ground (arith, h)

create_invalid :
    (given : Bool) (cb : Option ℕ) (r : Rvs)
    → is_invalid (rvs_session_create given cb r).1.0 ≡ true
    → (rvs_session_create given cb r).0 ≡ r
unfolding rvs_session_create
create_invalid given none r h = refl
create_invalid given (some cb) r h = ground (arith, h)

set_known_invalid :
    (i : ℕ) (property : Property) (r : Rvs)
    → is_invalid (set_known i property r).1 ≡ true
    → (set_known i property r).0 ≡ r
unfolding set_known
set_known_invalid i property r h = ground (arith, h)

set_of_type_invalid :
    (i : ℕ) (property : Property) (r : Rvs)
    → is_invalid (set_of_type i property r).1 ≡ true
    → (set_of_type i property r).0 ≡ r
unfolding set_of_type
set_of_type_invalid i (default_conf m) r h = set_known_invalid i (default_conf m) r h
set_of_type_invalid i (custom_conf path) r h = set_known_invalid i (custom_conf path) r h
set_of_type_invalid i (custom_action config) r h = set_known_invalid i (custom_action config) r h
set_of_type_invalid i (unknown_type n) r h = refl

set_property_invalid :
    (id : ℕ) (property : Option Property) (r : Rvs)
    → is_invalid (rvs_session_set_property id property r).1 ≡ true
    → (rvs_session_set_property id property r).0 ≡ r
unfolding rvs_session_set_property
set_property_invalid id none r h = refl
set_property_invalid id (some property) r h = elim (Bool-cases r.initialized) [
  | inr off ↦ ground (arith, off)
  | inl on ↦ elim (Option-cases (rvs_validate_session id r.sessions)) [
    | inl no_one ↦ ground (arith, on, no_one)
    | inr (i, found) ↦
        simp (on, found) (set_of_type_invalid i property r (ground (arith, h, on, found)))
  ]
]

destroy_invalid :
    (id : ℕ) (r : Rvs)
    → is_invalid (rvs_session_destroy id r).1 ≡ true
    → (rvs_session_destroy id r).0 ≡ r
unfolding rvs_session_destroy
destroy_invalid id r h = ground (arith, h)

terminate_invalid : (r : Rvs) → is_invalid (rvs_terminate r).1 ≡ true → (rvs_terminate r).0 ≡ r
unfolding rvs_terminate
terminate_invalid r h = ground (arith, h)

module _ (run : Executor) where
  launch_valid :
      (id i : ℕ) (opt : Map Text) (r : Rvs) → is_invalid (launch run id i opt r).1 ≡ false
  unfolding launch
  launch_valid id i opt r = ground arith

  execute_property_invalid :
      (id i : ℕ) (o : Option (Map Text)) (r : Rvs)
      → is_invalid (execute_property run id i o r).1 ≡ true
      → (execute_property run id i o r).0 ≡ r
  unfolding execute_property
  execute_property_invalid id i none r h = refl
  execute_property_invalid id i (some opt) r h = absurd (ground (arith, h, launch_valid id i opt r))

  execute_invalid :
      (id : ℕ) (r : Rvs)
      → is_invalid (rvs_session_execute run id r).1 ≡ true
      → (rvs_session_execute run id r).0 ≡ r
  unfolding rvs_session_execute
  execute_invalid id r h = elim (Bool-cases r.initialized) [
    | inr off ↦ ground (arith, off)
    | inl on ↦ elim (Option-cases (rvs_validate_session id r.sessions)) [
      | inl no_one ↦ ground (arith, on, no_one)
      | inr (i, found) ↦ elim (Bool-cases (is_ready (at i r.sessions).state)) [
        | inr early ↦ ground (arith, on, found, early)
        | inl fit ↦
            simp (on, found, fit)
              (execute_property_invalid id i (options_of (at i r.sessions).property) r
                (ground (arith, h, on, found, fit)))
      ]
    ]
  ]

  -- A request that is answered with one of the four statuses for invalid calls changes nothing:
  -- no session, not the state of the library, and no callback is called.
  pub request_invalid :
      (q : Request) (r : Rvs) → is_invalid (request run q r).1 ≡ true → (request run q r).0 ≡ r
  unfolding request
  request_invalid initialize r h = initialize_invalid r h
  request_invalid (create given cb) r h = create_invalid given cb r h
  request_invalid (set_property id property) r h = set_property_invalid id property r h
  request_invalid (execute id) r h = execute_invalid id r h
  request_invalid (destroy id) r h = destroy_invalid id r h
  request_invalid terminate r h = terminate_invalid r h
