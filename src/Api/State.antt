-- ===== src/Api/State.antt =====
-- The sessions of rvs/src/rvs_interface.cpp, with the types of rvs/include/rvs.h and
-- rvs/include/rvsinternal.h.
use rocm_validation_suite.Prelude.{
  ℕ, zero, suc, Bool, true, false, Option, none, some, List, [], ◌∷◌, Text, ◌==◌, if◌then◌else◌,
}

-- `rvs_status_t`
pub data Status : Type 0 where
  success failed invalid_argument invalid_state invalid_session invalid_session_state : Status

-- `rvs_session_state_t`
pub data SessionState : Type 0 where
  idle created ready initiated inprogress completed : SessionState

-- `rvs_module_t`, without its end mark
pub data RvsModule : Type 0 where
  babel gpup gst iet mem pebb peqt pesm pbqt rcqt smqt : RvsModule

-- `rvs_session_property_t`; the last is a type that is none of the three.
pub data Property : Type 0 where
  default_conf : RvsModule → Property
  custom_conf : Text → Property
  custom_action : Text → Property
  unknown_type : ℕ → Property

-- `rvs_results_t`: the two states that are reported, with the output.
pub data Result : Type 0 where
  in_progress : Text → Result
  complete : Text → Result

abbrev pub result_state : Result → SessionState
result_state (in_progress output_log) = inprogress
result_state (complete output_log) = completed

-- `rvs_session_t`. A callback is a handle, and an executor the rows of its `action_details`.
pub record RvsSession : Type 0 where
  pub id : ℕ
  pub state : SessionState
  pub callback : Option ℕ
  pub property : Property
  pub executor : Option (List (Text × Bool))

-- What `memset` makes of a session.
abbrev pub cleared : RvsSession
cleared = record {
  id = 0;
  state = idle;
  callback = none;
  property = default_conf babel;
  executor = none;
}

-- The variables `rvs_state` and `rvs_session`, with what the callbacks were given: the callback,
-- the session's id and the result.
pub record Rvs : Type 0 where
  pub initialized : Bool
  pub sessions : List RvsSession
  pub delivered : List (Option ℕ × ℕ × Result)

abbrev pub rvs_max_sessions : ℕ
rvs_max_sessions = 1

abbrev pub is_idle : SessionState → Bool
is_idle idle = true
is_idle created = false
is_idle ready = false
is_idle initiated = false
is_idle inprogress = false
is_idle completed = false

-- The first free session.
unfoldable pub rvs_get_session_instance : List RvsSession → Option ℕ
rvs_get_session_instance [] = none
rvs_get_session_instance (s ∷ sessions) =
    let rest = rvs_get_session_instance sessions in
    if is_idle s.state then some 0 else elim rest [ none ↦ none | some i ↦ some (suc i) ]

-- The first session with this id.
unfoldable pub rvs_validate_session : ℕ → List RvsSession → Option ℕ
rvs_validate_session session_id [] = none
rvs_validate_session session_id (s ∷ sessions) =
    let rest = rvs_validate_session session_id sessions in
    if session_id == s.id then some 0 else elim rest [ none ↦ none | some i ↦ some (suc i) ]

-- Two more readings of the array: an entry, and an entry replaced.
unfoldable pub at : ℕ → List RvsSession → RvsSession
at i [] = cleared
at zero (s ∷ sessions) = s
at (suc i) (s ∷ sessions) = at i sessions

unfoldable pub replace : ℕ → RvsSession → List RvsSession → List RvsSession
replace i s' [] = []
replace zero s' (s ∷ sessions) = s' ∷ sessions
replace (suc i) s' (s ∷ sessions) = s ∷ replace i s' sessions

unfoldable pub repeat_cleared : ℕ → List RvsSession
repeat_cleared zero = []
repeat_cleared (suc n) = cleared ∷ repeat_cleared n
