-- ===== src/Gm/Scenes.antt =====
-- Tests and witnesses for gm.so/src/action.cpp and src/rsmi_util.cpp.
use rocm_validation_suite.Prelude.{◌≡◌, ◌↔◌, refl, true, false, none, some, [], ◌∷◌, codes}
use rocm_validation_suite.Action.{Action}
use rocm_validation_suite.Gpu.Table.{gpu2location, beside, position}
use rocm_validation_suite.Gm.Worker.{Bound}
use rocm_validation_suite.Gm.Config.{GmAction, get_all_gm_config_keys}
use rocm_validation_suite.Gm.Keys.{IsMonitorable, get_all_gm_accepts}
use rocm_validation_suite.Gm.Action.{System, GmSession, device_handles, handled, run_gm}
use rocm_validation_suite.Gm.Handles.{
  get_smi_pci_map, smi_pci_hdl_mapping, map_processors, insert_handle, smi_dev_ind_get, find_handle,
}
use rocm_validation_suite.Gm.Results.{IsReported, run_gm-IsReported}
use rocm_validation_suite.Gm.First.{Watched, run_gm_first}

abbrev unset : Bound
unset = record { mon_metric = false; check_bounds = false; max_val = 0; min_val = 0 }

abbrev base : Action
base = record {
  action_name = [];
  module_name = codes "gm";
  property_device_id = 0;
  property_device_index = [];
  property_device_index_all = false;
  property_device = [];
  property_device_all = false;
  property_parallel = false;
  property_count = 0;
  property_wait = 0;
  property_duration = 0;
  property_log_interval = 1000;
  bjson = false;
  property =
      (codes "name", codes "watch")
      ∷ (codes "device", codes "all")
      ∷ (codes "monitor", codes "true")
      ∷ (codes "metrics.temp", codes "true 30 0")
      ∷ (codes "metrics.fan", codes "false 10 0")
      ∷ [];
  messages = [];
}

abbrev action : GmAction
action = record {
  base = base;
  bound_temp = unset;
  bound_clock = unset;
  bound_mem_clock = unset;
  bound_fan = unset;
  bound_power = unset;
  prop_force = false;
  prop_terminate = false;
  sample_interval = 0;
}

-- Two GPUs of one socket, at the locations 768 and 1792.
abbrev system : System
system = record {
  node_gpu_ids = 0 ∷ 3254 ∷ 50599 ∷ [];
  table = record {
    location_id = 768 ∷ 1792 ∷ [];
    gpu_id = 3254 ∷ 50599 ∷ [];
    gpu_idx = 0 ∷ 1 ∷ [];
    device_id = 26273 ∷ 26273 ∷ [];
    node_id = 1 ∷ 2 ∷ [];
    domain_id = 0 ∷ 0 ∷ [];
    domain_loc_map = [];
    pci_bdf = [];
  };
  sockets = ((some 1792, 71) ∷ (some 768, 70) ∷ []) ∷ [];
  pci_map = [];
}

abbrev session : GmSession
session = record { action = action; pworker = none; stopped = []; callbacks = [] }

get_all_gm_accepts_example : ((get_all_gm_config_keys action).1 ≡ true) ↔ IsMonitorable action
get_all_gm_accepts_example = get_all_gm_accepts action

run_gm-IsReported_example : IsReported [] (run_gm system session)
run_gm-IsReported_example = run_gm-IsReported system session

mapped : get_smi_pci_map system.sockets system.pci_map ≡ (768, 70) ∷ (1792, 71) ∷ []
unfolding get_smi_pci_map smi_pci_hdl_mapping map_processors insert_handle
mapped = refl

run_gm_first_example :
    Watched system 768 70 ((1792, 71) ∷ []) mapped (run_gm system session).1.pworker
run_gm_first_example = run_gm_first system 768 70 ((1792, 71) ∷ []) mapped session

-- The second GPU is monitored with a null handle.
second_null : device_handles system (3254 ∷ 50599 ∷ []) [] ≡ handled ((3254, 70) ∷ (50599, 0) ∷ [])
unfolding device_handles smi_dev_ind_get find_handle get_smi_pci_map smi_pci_hdl_mapping
    map_processors insert_handle gpu2location beside position
second_null = refl
