-- ===== src/Api/Invariant.antt =====
-- What holds of the sessions of rvs/src/rvs_interface.cpp after any requests.
use mathlib.Core.Path.{subst}
use rocm_validation_suite.Prelude.{
  ℕ, ◌+◌, ◌≡◌, ◌≢◌, refl, sym, ap, ◌∙◌, inl, inr, Bool, false, Option, none, some, List, [], ◌∷◌,
  Text, Map, arith, Bool-cases, Option-cases,
}
use rocm_validation_suite.Api.State.{
  Property, default_conf, custom_conf, custom_action, unknown_type, Result, result_state, cleared,
  Rvs, is_idle, rvs_get_session_instance, rvs_validate_session, at, replace, rvs_max_sessions,
}
use rocm_validation_suite.Api.Requests.{
  Executor, rvs_initialize, rvs_session_create, takes_property, set_known, set_of_type,
  rvs_session_set_property, options_of, rvs_callback, rvs_callbacks, is_ready, is_inprogress,
  launch, execute_property, rvs_session_execute, rvs_session_destroy, rvs_terminate, Request,
  initialize, create, set_property, execute, destroy, terminate, request, requests, loaded,
}
use rocm_validation_suite.Api.Slots.{
  used, busy_of, busy_ready, busy_result, Slots, Slots-at, Slots-replace, Slots-repeat_cleared,
  validate_at,
}

-- Every session is free and clear, or has its place's id and a callback.
abbrev pub IsConsistent : Rvs → Type 0
IsConsistent r = Slots 1 r.sessions

rvs_initialize-IsConsistent : (r : Rvs) → IsConsistent r → IsConsistent (rvs_initialize r).0
unfolding rvs_initialize
rvs_initialize-IsConsistent r h = elim (Bool-cases r.initialized) [
  | inl on ↦ rw on h
  | inr off ↦ rw off (Slots-repeat_cleared 1 rvs_max_sessions)
]

rvs_session_create-IsConsistent :
    (given : Bool) (cb : Option ℕ) (r : Rvs)
    → IsConsistent r
    → IsConsistent (rvs_session_create given cb r).0
unfolding rvs_session_create
rvs_session_create-IsConsistent given none r h = h
rvs_session_create-IsConsistent given (some cb) r h = elim (Bool-cases given) [
  | inr null ↦ rw null h
  | inl there ↦ elim (Bool-cases r.initialized) [
    | inr off ↦ rw (there, off) h
    | inl on ↦ elim (Option-cases (rvs_get_session_instance r.sessions)) [
      | inl full ↦ rw (there, on, full) h
      | inr (i, free) ↦
          rw (there, on, free) (Slots-replace 1 i _ r.sessions h (inr (omega arith, refl, refl)))
    ]
  ]
]

set_known-IsConsistent :
    (i : ℕ) (property : Property) (r : Rvs)
    → IsConsistent r
    → IsConsistent (set_known i property r).0
unfolding set_known
set_known-IsConsistent i property r h = elim (Bool-cases (takes_property (at i r.sessions).state)) [
  | inl fit ↦ rw fit (
      Slots-replace 1 i _ r.sessions h (
        used (1 + i) (at i r.sessions) _ (Slots-at 1 i r.sessions h)
          (busy_of (at i r.sessions).state fit) refl refl refl))
  | inr unfit ↦ rw unfit h
]

set_of_type-IsConsistent :
    (i : ℕ) (property : Property) (r : Rvs)
    → IsConsistent r
    → IsConsistent (set_of_type i property r).0
unfolding set_of_type
set_of_type-IsConsistent i (default_conf m) r h = set_known-IsConsistent i (default_conf m) r h
set_of_type-IsConsistent i (custom_conf path) r h = set_known-IsConsistent i (custom_conf path) r h
set_of_type-IsConsistent i (custom_action config) r h =
    set_known-IsConsistent i (custom_action config) r h
set_of_type-IsConsistent i (unknown_type n) r h = h

rvs_session_set_property-IsConsistent :
    (id : ℕ) (property : Option Property) (r : Rvs)
    → IsConsistent r
    → IsConsistent (rvs_session_set_property id property r).0
unfolding rvs_session_set_property
rvs_session_set_property-IsConsistent id none r h = h
rvs_session_set_property-IsConsistent id (some property) r h = elim (Bool-cases r.initialized) [
  | inr off ↦ rw off h
  | inl on ↦ elim (Option-cases (rvs_validate_session id r.sessions)) [
    | inl no_one ↦ rw (on, no_one) h
    | inr (i, found) ↦ rw (on, found) (set_of_type-IsConsistent i property r h)
  ]
]

-- The session of an id that is not 0 is in use.
busy_at :
    (id i : ℕ) (r : Rvs)
    → IsConsistent r
    → id ≢ 0
    → rvs_validate_session id r.sessions ≡ some i
    → is_idle (at i r.sessions).state ≡ false
busy_at id i r h nz found = elim (Slots-at 1 i r.sessions h) [
  | inl free ↦ absurd (nz (sym (validate_at id i r.sessions found) ∙ ap (λ s. s.id) free))
  | inr (named, busy, set) ↦ busy
]

-- What a callback does to the sessions.
callback_unfound :
    (id : ℕ) (result : Result) (r : Rvs)
    → rvs_validate_session id r.sessions ≡ none
    → rvs_callback id result r ≡ r
unfolding rvs_callback
callback_unfound id result r e = ground (arith, e)

pub callback_found :
    (id i : ℕ) (result : Result) (r : Rvs)
    → rvs_validate_session id r.sessions ≡ some i
    → (rvs_callback id result r).sessions
      ≡ replace i (record (at i r.sessions) { state = result_state result }) r.sessions
unfolding rvs_callback
callback_found id i result r e = ground (arith, e)

id_not_zero :
    (id i : ℕ) (r : Rvs)
    → IsConsistent r
    → rvs_validate_session id r.sessions ≡ some i
    → is_idle (at i r.sessions).state ≡ false
    → id ≢ 0
id_not_zero id i r h found busy = λ z. elim (Slots-at 1 i r.sessions h) [
  | inl free ↦ absurd (ground (arith, busy, ap (λ s. is_idle s.state) free))
  | inr (named, _, set) ↦ absurd (ground (arith, named, validate_at id i r.sessions found, z))
]

rvs_callback-IsConsistent :
    (id : ℕ) (result : Result) (r : Rvs)
    → id ≢ 0
    → IsConsistent r
    → IsConsistent (rvs_callback id result r)
rvs_callback-IsConsistent id result r nz h =
    elim (Option-cases (rvs_validate_session id r.sessions)) [
      | inl no_one ↦ subst IsConsistent (sym (callback_unfound id result r no_one)) h
      | inr (i, found) ↦ subst (Slots 1) (sym (callback_found id i result r found)) (
          Slots-replace 1 i (record (at i r.sessions) { state = result_state result }) r.sessions h
            (used (1 + i) (at i r.sessions)
              (record (at i r.sessions) { state = result_state result }) (Slots-at 1 i r.sessions h)
              (busy_at id i r h nz found) refl refl (busy_result result)))
    ]

rvs_callbacks-IsConsistent :
    (id : ℕ) (results : List Result) (r : Rvs)
    → id ≢ 0
    → IsConsistent r
    → IsConsistent (rvs_callbacks id results r)
unfolding rvs_callbacks
rvs_callbacks-IsConsistent id [] r nz h = h
rvs_callbacks-IsConsistent id (result ∷ results) r nz h =
    rvs_callbacks-IsConsistent id results (rvs_callback id result r) nz
      (rvs_callback-IsConsistent id result r nz h)

module _ (run : Executor) where
  launch-IsConsistent :
      (id i : ℕ) (opt : Map Text) (r : Rvs)
      → IsConsistent r
      → rvs_validate_session id r.sessions ≡ some i
      → is_idle (at i r.sessions).state ≡ false
      → IsConsistent (launch run id i opt r).0
  unfolding launch
  launch-IsConsistent id i opt r h found busy =
      rvs_callbacks-IsConsistent id _ _ (id_not_zero id i r h found busy) (
        Slots-replace 1 i _ r.sessions h
          (used (1 + i) (at i r.sessions) _ (Slots-at 1 i r.sessions h) busy refl refl refl))

  execute_property-IsConsistent :
      (id i : ℕ) (o : Option (Map Text)) (r : Rvs)
      → IsConsistent r
      → rvs_validate_session id r.sessions ≡ some i
      → is_idle (at i r.sessions).state ≡ false
      → IsConsistent (execute_property run id i o r).0
  unfolding execute_property
  execute_property-IsConsistent id i none r h found busy = h
  execute_property-IsConsistent id i (some opt) r h found busy =
      launch-IsConsistent id i opt r h found busy

  rvs_session_execute-IsConsistent :
      (id : ℕ) (r : Rvs) → IsConsistent r → IsConsistent (rvs_session_execute run id r).0
  unfolding rvs_session_execute
  rvs_session_execute-IsConsistent id r h = elim (Bool-cases r.initialized) [
    | inr off ↦ rw off h
    | inl on ↦ elim (Option-cases (rvs_validate_session id r.sessions)) [
      | inl no_one ↦ rw (on, no_one) h
      | inr (i, found) ↦ elim (Bool-cases (is_ready (at i r.sessions).state)) [
        | inr early ↦ rw (on, found, early) h
        | inl fit ↦
            rw (on, found, fit)
              (execute_property-IsConsistent id i (options_of (at i r.sessions).property) r h found
                (busy_ready (at i r.sessions).state fit))
      ]
    ]
  ]

rvs_session_destroy-IsConsistent :
    (id : ℕ) (r : Rvs) → IsConsistent r → IsConsistent (rvs_session_destroy id r).0
unfolding rvs_session_destroy
rvs_session_destroy-IsConsistent id r h = elim (Bool-cases r.initialized) [
  | inr off ↦ rw off h
  | inl on ↦ elim (Option-cases (rvs_validate_session id r.sessions)) [
    | inl no_one ↦ rw (on, no_one) h
    | inr (i, found) ↦ elim (Bool-cases (is_inprogress (at i r.sessions).state)) [
      | inl busy ↦ rw (on, found, busy) h
      | inr fit ↦ rw (on, found, fit) (Slots-replace 1 i cleared r.sessions h (inl refl))
    ]
  ]
]

rvs_terminate-IsConsistent : (r : Rvs) → IsConsistent r → IsConsistent (rvs_terminate r).0
unfolding rvs_terminate
rvs_terminate-IsConsistent r h = elim (Bool-cases r.initialized) [
  | inl on ↦ rw on h
  | inr off ↦ rw off h
]

pub request-IsConsistent :
    (run : Executor) (q : Request) (r : Rvs) → IsConsistent r → IsConsistent (request run q r).0
unfolding request
request-IsConsistent run initialize r h = rvs_initialize-IsConsistent r h
request-IsConsistent run (create given cb) r h = rvs_session_create-IsConsistent given cb r h
request-IsConsistent run (set_property id property) r h =
    rvs_session_set_property-IsConsistent id property r h
request-IsConsistent run (execute id) r h = rvs_session_execute-IsConsistent run id r h
request-IsConsistent run (destroy id) r h = rvs_session_destroy-IsConsistent id r h
request-IsConsistent run terminate r h = rvs_terminate-IsConsistent r h

requests_from :
    (run : Executor) (qs : List Request) (r : Rvs)
    → IsConsistent r
    → IsConsistent (requests run qs r)
unfolding requests
requests_from run [] r h = h
requests_from run (q ∷ qs) r h =
    requests_from run qs (request run q r).0 (request-IsConsistent run q r h)

-- After any requests, whatever the executor reports, each session is free, with every field
-- cleared, or it is in use, and then its id is its place in the array counted from 1 and it has a
-- callback.
pub requests-IsConsistent :
    (run : Executor) (qs : List Request) → IsConsistent (requests run qs loaded)
requests-IsConsistent run qs = requests_from run qs loaded (Slots-repeat_cleared 1 rvs_max_sessions)
