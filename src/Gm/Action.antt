-- ===== src/Gm/Action.antt =====
-- `gm_action::run` of gm.so/src/action.cpp. JSON and the waiting times are left out. What /sys says of
-- the GPUs of each node is given, and so is what the SMI library answers.
use rocm_validation_suite.Prelude.{
  ℕ, Bool, true, false, not, Option, none, some, List, [], ◌∷◌, ◌++◌, Text, codes, str_eq, is_nil,
  find, put, keep, ◌==◌, ltb, if◌then◌else◌,
}
use rocm_validation_suite.Util.Number.{to_string}
use rocm_validation_suite.Action.{Action, error}
use rocm_validation_suite.Action.Keys.{say, get_all_common_config_keys}
use rocm_validation_suite.Gpu.Initialize.{gpu_get_all_gpu_id}
use rocm_validation_suite.Gpu.Table.{GpuList, absent, found, fault, gpu2device, gpu2location}
use rocm_validation_suite.Gm.Config.{GmAction, get_all_gm_config_keys}
use rocm_validation_suite.Gm.Handles.{insert_handle, smi_dev_ind_get}

-- What the action asks of the system.
pub record System : Type 0 where
  pub node_gpu_ids : List ℕ
  pub table : GpuList
  pub sockets : List (List (Option ℕ × ℕ))
  pub pci_map : List (ℕ × ℕ)

-- A `Worker` that was started.
pub record Running : Type 0 where
  pub name : Text
  pub stop_name : Text
  pub term : Bool
  pub force : Bool
  pub sample_int : ℕ
  pub log_int : ℕ
  pub dv_hdl : List (ℕ × ℕ)
  pub bounds : GmAction

-- `pworker`, the workers that were stopped with their `stop_name`, and the last results passed to
-- `action_callback`, with whether their status is ACTION_SUCCESS.
pub record GmSession : Type 0 where
  pub action : GmAction
  pub pworker : Option Running
  pub stopped : List Text
  pub callbacks : List (Bool × Text)

-- `property[key]`, which inserts a missing key.
unfoldable pub property_at : Text → Action → Text × Action
property_at key a = elim (find key a.property) [
  | some v ↦ (v, a)
  | none ↦ ([], record a { property = put key [] a.property })
]

has_device_id : GpuList → ℕ → ℕ → Bool
has_device_id t wanted gpu = elim (gpu2device t gpu) [
  | absent ↦ false
  | found dev ↦ dev == wanted
  | fault ↦ false
]

-- The GPUs that pass the filter of `deviceid`.
unfoldable pub with_device_id : GpuList → ℕ → List ℕ → List ℕ
unfolding has_device_id
with_device_id t wanted gpus = if ltb 0 wanted then keep (has_device_id t wanted) gpus else gpus

pub data Handled : Type 0 where
  handled : List (ℕ × ℕ) → Handled
  without_location : ℕ → Handled

-- The map of handles, or the GPU that has no location. A read past the end of the table counts as none.
unfoldable pub device_handles : System → List ℕ → List (ℕ × ℕ) → Handled
device_handles w [] m = handled m
device_handles w (gpu ∷ gpus) m = elim (gpu2location w.table gpu) [
  | absent ↦ without_location gpu
  | fault ↦ without_location gpu
  | found location_id ↦ elim (smi_dev_ind_get w.sockets w.pci_map location_id) [
    | none ↦ device_handles w gpus m
    | some ix ↦ device_handles w gpus (insert_handle gpu ix m)
  ]
]

unfoldable pub callback : Bool → Text → GmSession → GmSession
callback success output s = record s { callbacks = s.callbacks ++ (success, output) ∷ [] }

-- The return value -1 with the callback before it.
unfoldable pub refuse : Text → GmSession → Bool × GmSession
unfolding callback
refuse output s = (false, callback false output s)

-- A monitoring that is running is stopped.
unfoldable pub stop_running : GmSession → GmSession
stop_running s = elim s.pworker [
  | none ↦ s
  | some worker ↦
      let at = property_at (codes "name") s.action.base in
      record s {
        action = record s.action { base = at.1 };
        stopped = s.stopped ++ at.0 ∷ [];
        pworker = none;
      }
]

abbrev completed_text : GmAction → Text
completed_text a = codes "GM Module action " ++ (a.base.action_name ++ codes " completed")

-- The end of `run`, with the handles.
unfoldable pub start_worker : Handled → GmSession → Bool × GmSession
unfolding callback
start_worker (without_location gpu) s =
    let msg = codes "Could not obtain BDF for GPU ID: " ++ to_string gpu in
    refuse msg (record s { action = record s.action { base = say error msg s.action.base } })
start_worker (handled dv_hdl) s =
    let a = s.action in
    let worker : Running = record {
      name = a.base.action_name;
      stop_name = a.base.action_name;
      term = a.prop_terminate;
      force = a.prop_force;
      sample_int = a.sample_interval;
      log_int = a.base.property_log_interval;
      dv_hdl = dv_hdl;
      bounds = a;
    } in
    (true, callback true (completed_text a) (record s { pworker = some worker }))

-- The devices of the action, once its keys are read.
unfoldable pub select : System → GmSession → Bool × GmSession
select w s =
    let b = s.action.base in
    let all =
      if b.property_device_all
      then gpu_get_all_gpu_id w.node_gpu_ids b.property_device
      else b.property_device in
    let gpus = with_device_id w.table b.property_device_id all in
    let kept = record s {
      action = record s.action { base = record b { property_device = gpus } };
    } in
    if is_nil gpus
    then refuse (codes "No devices match filtering criteria.") (record kept {
      action = record kept.action {
        base = say error (codes "No devices match filtering criteria.") kept.action.base;
      };
    })
    else start_worker (device_handles w gpus []) kept

unfoldable pub configure : System → GmSession → Bool × GmSession
configure w s =
    let common = get_all_common_config_keys s.action.base in
    let a = record s.action { base = common.0 } in
    let keys = get_all_gm_config_keys a in
    if not common.1
    then refuse (codes "Error in common configuration keys.") (record s { action = a })
    else if not keys.1
    then refuse (codes "Error in GM configuration keys.") (record s { action = keys.0 })
    else select w (record s { action = keys.0 })

-- `run`: whether it returns 0, and the session after it.
unfoldable pub run_gm : System → GmSession → Bool × GmSession
unfolding stop_running
run_gm w s =
    let s' = stop_running s in
    let at = property_at (codes "monitor") s'.action.base in
    let s'' = record s' { action = record s'.action { base = at.1 } } in
    if not (str_eq at.0 (codes "true"))
    then (true, callback false (completed_text s''.action) s'')
    else configure w s''
