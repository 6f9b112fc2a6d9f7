-- ===== src/Pesm/Examples.antt =====
-- The monitor on one GPU, which is shown three times, and a device that is not watched; a sequence of
-- actions that start and stop the monitor.
use rocm_validation_suite.Pesm.Action.{PesmAction, run_all}
use rocm_validation_suite.Pesm.Started.{since_stop, first_start, run_all_first}
use rocm_validation_suite.Prelude.{
  none, Text, ℕ, ◌≡◌, refl, ◌==◌, true, false, List, [], ◌∷◌, codes, map, str_eq, if◌then◌else◌,
}
use rocm_validation_suite.Gpu.Table.{GpuList, location2gpu, gpu2gpuindex, beside}
use rocm_validation_suite.Gpu.Select.{location, contains}
use rocm_validation_suite.Pci.Caps.{
  PciDev, normal, pci_dev_find_cap_offset, get_link_stat_cur_speed, get_pwr_curr_state, speed_text,
}
use rocm_validation_suite.Pesm.Numbered.{lookup}
use rocm_validation_suite.Pesm.Worker.{Settings, started, watched, monitor}
use rocm_validation_suite.Pesm.Channel.{changes, verdict}
use rocm_validation_suite.Pesm.Changes.{seen, seen_all, monitor_flags}

abbrev table : GpuList
table = record {
  location_id = 768 ∷ [];
  gpu_id = 3254 ∷ [];
  gpu_idx = 0 ∷ [];
  device_id = 26273 ∷ [];
  node_id = 2 ∷ [];
  domain_id = 0 ∷ [];
  domain_loc_map = [];
  pci_bdf = [];
}

-- A device at a bus, with a link speed; its power state is D0.
abbrev device_at : ℕ → ℕ → PciDev
device_at bus speed = record {
  bus = bus;
  dev = 0;
  func = 0;
  device_id = 26273;
  vendor_id = 4098;
  bars = [];
  caps =
      record { id = 16; cap_type = normal; addr = 64 }
      ∷ record { id = 1; cap_type = normal; addr = 80 }
      ∷ [];
  pci_read_word = λ address. if address == 82 then speed else 0;
  pci_read_long = λ address. 0;
}

abbrev settings : Settings
settings = record {
  action_name = codes "act";
  stop_action_name = codes "stop";
  device_id = 0;
  gpuids = 3254 ∷ [];
  gpuidx = [];
  bfiltergpu = true;
  bfiltergpuidx = false;
}

abbrev scans : List (List PciDev)
scans =
    (device_at 3 4 ∷ device_at 7 1 ∷ [])
    ∷ (device_at 3 4 ∷ [])
    ∷ (device_at 7 2 ∷ device_at 3 2 ∷ [])
    ∷ []

monitor_flags_example :
    (lookup 3254 (monitor settings table scans started).speed.change
      ≡ verdict (map get_link_stat_cur_speed (seen_all settings table 3254 scans)))
    × (lookup 3254 (monitor settings table scans started).power.change
        ≡ verdict (map get_pwr_curr_state (seen_all settings table 3254 scans)))
monitor_flags_example = monitor_flags settings table 3254 scans

speed_changed :
    verdict (map get_link_stat_cur_speed (seen_all settings table 3254 scans)) ≡ codes "true"
unfolding verdict seen_all seen watched location2gpu beside location gpu2gpuindex contains changes
    str_eq get_link_stat_cur_speed pci_dev_find_cap_offset speed_text
speed_changed = refl

-- An action of a name that starts the monitor or stops it.
abbrev action : Text → Text → PesmAction
action name monitor = record {
  base = record {
    action_name = [];
    module_name = codes "pesm";
    property_device_id = 0;
    property_device_index = [];
    property_device_index_all = false;
    property_device = [];
    property_device_all = false;
    property_parallel = false;
    property_count = 0;
    property_wait = 0;
    property_duration = 0;
    property_log_interval = 0;
    bjson = false;
    property =
        (codes "name", name) ∷ (codes "device", codes "all") ∷ (codes "monitor", monitor) ∷ [];
    messages = [];
  };
  prop_monitor = true;
  prop_debugwait = 0;
}

abbrev actions : List PesmAction
actions =
    action (codes "a") (codes "true")
    ∷ action (codes "b") (codes "false")
    ∷ action (codes "c") (codes "yes")
    ∷ action (codes "d") (codes "true")
    ∷ action (codes "e") (codes "true")
    ∷ []

run_all_first_example : run_all 0 actions none ≡ first_start (since_stop actions).0
run_all_first_example = run_all_first 0 actions
