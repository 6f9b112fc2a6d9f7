-- ===== src/Api/Requests.antt =====
-- The functions of rvs/src/rvs_interface.cpp, each under the lock from its first test on. The
-- executor is a parameter: the results that it reports, its rows and its status.
use rocm_validation_suite.Prelude.{
  ℕ, ◌+◌, Bool, true, false, not, Option, none, some, List, [], ◌∷◌, ◌++◌, Text, codes, Map,
  if◌then◌else◌,
}
use rocm_validation_suite.Exec.Run.{ℤ}
use rocm_validation_suite.Exec.Actions.{is_zero}
use rocm_validation_suite.Api.State.{
  Status, success, failed, invalid_argument, invalid_state, invalid_session, invalid_session_state,
  SessionState, idle, created, ready, initiated, inprogress, completed, RvsModule, babel, gpup, gst,
  iet, mem, pebb, peqt, pesm, pbqt, rcqt, smqt, Property, default_conf, custom_conf, custom_action,
  unknown_type, Result, result_state, cleared, Rvs, rvs_max_sessions, rvs_get_session_instance,
  rvs_validate_session, at, replace, repeat_cleared,
}

pub record Ran : Type 0 where
  pub results : List Result
  pub rows : List (Text × Bool)
  pub sts : ℤ

-- `rvs::exec::run(opt)` of an executor with these rows.
abbrev pub Executor : Type 0
Executor = List (Text × Bool) → Map Text → Ran

unfoldable pub rvs_initialize : Rvs → Rvs × Status
rvs_initialize r =
    if r.initialized
    then (r, invalid_state)
    else (record r { initialized = true; sessions = repeat_cleared rvs_max_sessions }, success)

-- Whether the pointer `session_id` is given, and the callback; the id where there is one.
unfoldable pub rvs_session_create : Bool → Option ℕ → Rvs → Rvs × (Status × Option ℕ)
rvs_session_create given none r = (r, (invalid_argument, none))
rvs_session_create given (some session_cb) r =
    if not given
    then (r, (invalid_argument, none))
    else if not r.initialized
    then (r, (invalid_state, none))
    else elim (rvs_get_session_instance r.sessions) [
      | none ↦ (r, (failed, none))
      | some i ↦
          let s = record (at i r.sessions) {
            id = i + 1;
            state = created;
            callback = some session_cb;
          } in
          (record r { sessions = replace i s r.sessions }, (success, some (i + 1)))
    ]

abbrev pub takes_property : SessionState → Bool
takes_property idle = false
takes_property created = true
takes_property ready = false
takes_property initiated = false
takes_property inprogress = false
takes_property completed = true

unfoldable pub set_known : ℕ → Property → Rvs → Rvs × Status
set_known i property r =
    let s = at i r.sessions in
    if takes_property s.state
    then (
      record r {
        sessions = replace i (record s { state = ready; property = property }) r.sessions;
      },
      success,
    )
    else (r, invalid_session_state)

unfoldable pub set_of_type : ℕ → Property → Rvs → Rvs × Status
unfolding set_known
set_of_type i (default_conf m) r = set_known i (default_conf m) r
set_of_type i (custom_conf path) r = set_known i (custom_conf path) r
set_of_type i (custom_action config) r = set_known i (custom_action config) r
set_of_type i (unknown_type n) r = (r, invalid_argument)

unfoldable pub rvs_session_set_property : ℕ → Option Property → Rvs → Rvs × Status
unfolding set_of_type
rvs_session_set_property session_id none r = (r, invalid_argument)
rvs_session_set_property session_id (some property) r =
    if not r.initialized
    then (r, invalid_state)
    else elim (rvs_validate_session session_id r.sessions) [
      | none ↦ (r, invalid_session)
      | some i ↦ set_of_type i property r
    ]

unfoldable pub module_name : RvsModule → Text
module_name babel = codes "babel"
module_name gpup = codes "gpup"
module_name gst = codes "gst"
module_name iet = codes "iet"
module_name mem = codes "mem"
module_name pebb = codes "pebb"
module_name peqt = codes "peqt"
module_name pesm = codes "pesm"
module_name pbqt = codes "pbqt"
module_name rcqt = codes "rcqt"
module_name smqt = codes "smqt"

-- The options for the executor.
unfoldable pub options_of : Property → Option (Map Text)
unfolding module_name
options_of (default_conf m) = some ((codes "module", module_name m) ∷ [])
options_of (custom_conf path) = some ((codes "conf", path) ∷ [])
options_of (custom_action config) = some ((codes "yaml", config) ∷ [])
options_of (unknown_type n) = none

-- A result, taken by the session with this id.
unfoldable pub rvs_callback : ℕ → Result → Rvs → Rvs
rvs_callback user_param result r = elim (rvs_validate_session user_param r.sessions) [
  | none ↦ r
  | some i ↦
      let s = record (at i r.sessions) { state = result_state result } in
      record r {
        sessions = replace i s r.sessions;
        delivered = r.delivered ++ (s.callback, user_param, result) ∷ [];
      }
]

unfoldable pub rvs_callbacks : ℕ → List Result → Rvs → Rvs
rvs_callbacks user_param [] r = r
rvs_callbacks user_param (result ∷ results) r =
    rvs_callbacks user_param results (rvs_callback user_param result r)

abbrev pub is_ready : SessionState → Bool
is_ready idle = false
is_ready created = false
is_ready ready = true
is_ready initiated = false
is_ready inprogress = false
is_ready completed = false

abbrev pub is_inprogress : SessionState → Bool
is_inprogress idle = false
is_inprogress created = false
is_inprogress ready = false
is_inprogress initiated = false
is_inprogress inprogress = true
is_inprogress completed = false

abbrev pub rows_of : Option (List (Text × Bool)) → List (Text × Bool)
rows_of none = []
rows_of (some rows) = rows

module _ (run : Executor) where
  -- The state and the executor of the session are set, and the executor is run.
  unfoldable pub launch : ℕ → ℕ → Map Text → Rvs → Rvs × Status
  launch session_id i opt r =
      let s = at i r.sessions in
      let ran = run (rows_of s.executor) opt in
      let s' = record s { state = initiated; executor = some ran.rows } in
      (
        rvs_callbacks session_id ran.results (record r { sessions = replace i s' r.sessions }),
        if is_zero ran.sts then success else failed,
      )

  unfoldable pub execute_property : ℕ → ℕ → Option (Map Text) → Rvs → Rvs × Status
  unfolding launch
  execute_property session_id i none r = (r, invalid_session)
  execute_property session_id i (some opt) r = launch session_id i opt r

  unfoldable pub rvs_session_execute : ℕ → Rvs → Rvs × Status
  unfolding execute_property options_of
  rvs_session_execute session_id r =
      if not r.initialized
      then (r, invalid_state)
      else elim (rvs_validate_session session_id r.sessions) [
        | none ↦ (r, invalid_session)
        | some i ↦
            if is_ready (at i r.sessions).state
            then execute_property session_id i (options_of (at i r.sessions).property) r
            else (r, invalid_session_state)
      ]

unfoldable pub rvs_session_destroy : ℕ → Rvs → Rvs × Status
rvs_session_destroy session_id r =
    if not r.initialized
    then (r, invalid_state)
    else elim (rvs_validate_session session_id r.sessions) [
      | none ↦ (r, invalid_session)
      | some i ↦
          if is_inprogress (at i r.sessions).state
          then (r, invalid_session_state)
          else (record r { sessions = replace i cleared r.sessions }, success)
    ]

unfoldable pub rvs_terminate : Rvs → Rvs × Status
rvs_terminate r =
    if not r.initialized then (r, invalid_state) else (record r { initialized = false }, success)

pub data Request : Type 0 where
  initialize : Request
  create : Bool → Option ℕ → Request
  set_property : ℕ → Option Property → Request
  execute : ℕ → Request
  destroy : ℕ → Request
  terminate : Request

module _ (run : Executor) where
  unfoldable pub request : Request → Rvs → Rvs × Status
  request initialize r = rvs_initialize r
  request (create given cb) r = let got = rvs_session_create given cb r in (got.0, got.1.0)
  request (set_property session_id property) r = rvs_session_set_property session_id property r
  request (execute session_id) r = rvs_session_execute run session_id r
  request (destroy session_id) r = rvs_session_destroy session_id r
  request terminate r = rvs_terminate r

  unfoldable pub requests : List Request → Rvs → Rvs
  unfolding request
  requests [] r = r
  requests (q ∷ qs) r = requests qs (request q r).0

-- The variables when the library is loaded.
abbrev pub loaded : Rvs
loaded = record { initialized = false; sessions = repeat_cleared rvs_max_sessions; delivered = [] }
