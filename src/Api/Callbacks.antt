-- ===== src/Api/Callbacks.antt =====
-- What the results of a run leave of the sessions of rvs/src/rvs_interface.cpp.
use rocm_validation_suite.Prelude.{
  ℕ, zero, suc, ◌≡◌, refl, sym, ap, ◌∙◌, false, some, List, [], ◌∷◌, ◌==◌, arith, Map, Text,
}
use rocm_validation_suite.Api.State.{
  SessionState, initiated, Result, result_state, RvsSession, Rvs, rvs_validate_session, at, replace,
}
use rocm_validation_suite.Api.Requests.{Executor, rvs_callback, rvs_callbacks, launch, rows_of}
use rocm_validation_suite.Api.Slots.{validate_suc}
use rocm_validation_suite.Api.Invariant.{callback_found}

-- The state after these results.
unfoldable pub state_after : SessionState → List Result → SessionState
state_after state [] = state
state_after state (result ∷ results) = state_after (result_state result) results

replace-at : (i : ℕ) (ss : List RvsSession) → replace i (at i ss) ss ≡ ss
unfolding replace at
replace-at i [] = refl
replace-at zero (s ∷ ss) = refl
replace-at (suc i) (s ∷ ss) = ap (λ rest. s ∷ rest) (replace-at i ss)

replace-replace :
    (i : ℕ) (a b : RvsSession) (ss : List RvsSession)
    → replace i a (replace i b ss) ≡ replace i a ss
unfolding replace
replace-replace i a b [] = refl
replace-replace zero a b (s ∷ ss) = refl
replace-replace (suc i) a b (s ∷ ss) = ap (λ rest. s ∷ rest) (replace-replace i a b ss)

pub at-replace :
    (id i : ℕ) (a : RvsSession) (ss : List RvsSession)
    → rvs_validate_session id ss ≡ some i
    → at i (replace i a ss) ≡ a
unfolding replace at rvs_validate_session
at-replace id i a [] e = absurd cc
at-replace id zero a (s ∷ ss) e = refl
at-replace id (suc i) a (s ∷ ss) e = at-replace id i a ss (validate_suc id i s ss e)

validate_step :
    (id i : ℕ) (s : RvsSession) (ss : List RvsSession)
    → rvs_validate_session id (s ∷ ss) ≡ some (suc i)
    → (id == s.id) ≡ false
unfolding rvs_validate_session
validate_step id i s ss e = ground (arith, e)

pub validate-replace :
    (id i : ℕ) (a : RvsSession) (ss : List RvsSession)
    → a.id ≡ id
    → rvs_validate_session id ss ≡ some i
    → rvs_validate_session id (replace i a ss) ≡ some i
unfolding replace rvs_validate_session
validate-replace id i a [] k e = absurd cc
validate-replace id zero a (s ∷ ss) k e = ground (arith, k)
validate-replace id (suc i) a (s ∷ ss) k e =
    ground
      (arith, validate_step id i s ss e, validate-replace id i a ss k (validate_suc id i s ss e))

abbrev in_state : SessionState → RvsSession → RvsSession
in_state state s = record s { state = state }

pub callbacks_found :
    (id i : ℕ) (results : List Result) (r : Rvs)
    → (at i r.sessions).id ≡ id
    → rvs_validate_session id r.sessions ≡ some i
    → (rvs_callbacks id results r).sessions
      ≡ replace i
          (in_state (state_after (at i r.sessions).state results) (at i r.sessions))
          r.sessions
unfolding rvs_callbacks state_after
callbacks_found id i [] r k e = sym (replace-at i r.sessions)
callbacks_found id i (result ∷ results) r k e =
    let s = in_state (result_state result) (at i r.sessions) in
    let r' = rvs_callback id result r in
    let now = callback_found id i result r e in
    let here = ap (at i) now ∙ at-replace id i s r.sessions e in
    callbacks_found id i results r' (ap (λ x. x.id) here ∙ k)
      (ap (rvs_validate_session id) now ∙ validate-replace id i s r.sessions k e)
    ∙ (ap (λ x. replace i (in_state (state_after x.state results) x) r'.sessions) here
        ∙ (ap (replace i (in_state (state_after s.state results) s)) now
            ∙ replace-replace i (in_state (state_after s.state results) s) s r.sessions))

-- What the execution of a session leaves of it.
pub launch_sessions :
    (run : Executor) (id i : ℕ) (opt : Map Text) (r : Rvs)
    → (at i r.sessions).id ≡ id
    → rvs_validate_session id r.sessions ≡ some i
    → (launch run id i opt r).0.sessions
      ≡ replace i
          (record (at i r.sessions) {
            state = state_after initiated (run (rows_of (at i r.sessions).executor) opt).results;
            executor = some (run (rows_of (at i r.sessions).executor) opt).rows;
          })
          r.sessions
unfolding launch
launch_sessions run id i opt r k e =
    let ran = run (rows_of (at i r.sessions).executor) opt in
    let s' : RvsSession = record (at i r.sessions) {
      state = initiated;
      executor = some ran.rows;
    } in
    let r' : Rvs = record r { sessions = replace i s' r.sessions } in
    let here = at-replace id i s' r.sessions e in
    callbacks_found id i ran.results r' (ap (λ x. x.id) here ∙ k)
      (validate-replace id i s' r.sessions k e)
    ∙ (ap (λ x. replace i (in_state (state_after x.state ran.results) x) r'.sessions) here
        ∙ replace-replace i _ s' r.sessions)
