-- ===== src/Pesm/Action.antt =====
-- `pesm_action` of pesm.so/src/action.cpp. JSON and the waiting times are left out; what the list of
-- GPUs returns is given.
use rocm_validation_suite.Prelude.{
  ℕ, Bool, true, false, not, Option, none, some, List, [], ◌∷◌, codes, ◌==◌, if◌then◌else◌,
}
use rocm_validation_suite.Action.{
  Action, error, property_get_string, property_get_bool_or, property_get_int_or, has_property,
}
use rocm_validation_suite.Action.Keys.{
  say, report, read_json_flag, read_device, read_device_id, read_device_index,
}
use rocm_validation_suite.Pesm.Worker.{Settings, set_gpuids, set_gpuidx}

pub record PesmAction : Type 0 where
  pub base : Action
  pub prop_monitor : Bool
  pub prop_debugwait : ℕ

-- The overriding `get_all_common_config_keys`.
unfoldable pub get_common_keys : Action → Action × Bool
get_common_keys a =
    let got = property_get_string (codes "name") a.action_name a in
    if got.0 == 0
    then read_device_index
        (read_device_id (read_device (read_json_flag (record a { action_name = got.1 }, true))))
    else (say error (codes "Action name missing") a, false)

unfoldable pub get_all_pesm_config_keys : PesmAction → PesmAction × Bool
get_all_pesm_config_keys a =
    let monitor = property_get_bool_or (codes "monitor") a.prop_monitor true a.base in
    let first = report monitor.0 (codes "Invalid 'monitor' key value.") (a.base, true) in
    let wait = property_get_int_or 32 (codes "debugwait") a.prop_debugwait 0 first.0 in
    let last = report wait.0 (codes "Invalid 'debugwait' key value.") first in
    (record { base = last.0; prop_monitor = monitor.1; prop_debugwait = wait.1 }, last.1)

-- A new worker with what `run` sets.
unfoldable pub new_worker : PesmAction → Settings
new_worker a =
    let made : Settings = record {
      action_name = a.base.action_name;
      stop_action_name = [];
      device_id = a.base.property_device_id;
      gpuids = [];
      gpuidx = [];
      bfiltergpu = false;
      bfiltergpuidx = false;
    } in
    set_gpuidx a.base.property_device_index (set_gpuids a.base.property_device made)

-- The keys of the action, and whether both groups are accepted.
unfoldable pub read_pesm_keys : PesmAction → PesmAction × Bool
read_pesm_keys a =
    let common = get_common_keys a.base in
    let a' = record a { base = common.0 } in
    let own = get_all_pesm_config_keys a' in if not common.1 then (a', false) else own

-- What the action makes of the worker that is running, if one is: the end of `run`.
unfoldable pub settle_worker : PesmAction → Option Settings → Option Settings
settle_worker a pworker =
    if not a.prop_monitor
    then none
    else elim pworker [ none ↦ some (new_worker a) | some worker ↦ some worker ]

-- `run`: its status, and the worker after it.
unfoldable pub run_pesm : ℕ → PesmAction → Option Settings → ℕ × Option Settings
run_pesm listed a pworker =
    let keys = read_pesm_keys a in
    elim (has_property (codes "do_gpu_list") a.base) [
      | some v ↦ (listed, pworker)
      | none ↦ if not keys.1 then (1, pworker) else (0, settle_worker keys.0 pworker)
    ]

-- The actions of a configuration, one after another.
unfoldable pub run_all : ℕ → List PesmAction → Option Settings → Option Settings
run_all listed [] pworker = pworker
run_all listed (a ∷ actions) pworker = run_all listed actions (run_pesm listed a pworker).1
