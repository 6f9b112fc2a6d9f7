-- ===== src/Pesm/Worker.antt =====
-- `Worker` of pesm.so/src/worker.cpp: what its thread keeps of each GPU, a look at a device, and
-- the scans until `stop`. The log rows are kept as their texts, the JSON records are left out.
use rocm_validation_suite.Prelude.{
  ℕ, Bool, true, false, not, ◌&&◌, ◌||◌, Option, none, some, List, [], ◌∷◌, ◌++◌, Text, codes,
  str_eq, is_nil, map, ◌==◌, if◌then◌else◌,
}
use rocm_validation_suite.Util.Number.{to_string}
use rocm_validation_suite.Gpu.Table.{GpuList, absent, found, fault, location2gpu, gpu2gpuindex}
use rocm_validation_suite.Gpu.Select.{location, contains}
use rocm_validation_suite.Pci.Caps.{PciDev, get_link_stat_cur_speed, get_pwr_curr_state}
use rocm_validation_suite.Pesm.Numbered.{Numbered, lookup, assign}

-- The fields that are set before the thread starts.
pub record Settings : Type 0 where
  pub action_name : Text
  pub stop_action_name : Text
  pub device_id : ℕ
  pub gpuids : List ℕ
  pub gpuidx : List ℕ
  pub bfiltergpu : Bool
  pub bfiltergpuidx : Bool

unfoldable pub set_gpuids : List ℕ → Settings → Settings
set_gpuids ids c = record c { gpuids = ids; bfiltergpu = not (is_nil ids) || c.bfiltergpu }

unfoldable pub set_gpuidx : List ℕ → Settings → Settings
set_gpuidx idx c = record c { gpuidx = idx; bfiltergpuidx = not (is_nil idx) || c.bfiltergpuidx }

-- The last value of each GPU, and whether it has changed: "true" or "false".
pub record Channel : Type 0 where
  pub old : Numbered
  pub change : Numbered

pub record Watch : Type 0 where
  pub speed : Channel
  pub power : Channel
  pub rows : List Text
  pub callbacks : List Text

abbrev pub started : Watch
started = record {
  speed = record { old = []; change = [] };
  power = record { old = []; change = [] };
  rows = [];
  callbacks = [];
}

-- A value beside the one kept, with whether it differs.
unfoldable pub compare_value : ℕ → Text → Channel → Channel × Bool
compare_value gpu_id value ch =
    if str_eq (lookup gpu_id ch.old) value
    then (
      record ch {
        change =
            if is_nil (lookup gpu_id ch.change)
            then assign gpu_id (codes "false") ch.change
            else ch.change;
      },
      false,
    )
    else (
      record { old = assign gpu_id value ch.old; change = assign gpu_id (codes "true") ch.change },
      true,
    )

-- An entry that is empty takes the value.
unfoldable pub first_value : ℕ → Text → Channel → Channel
first_value gpu_id value ch =
    if is_nil (lookup gpu_id ch.old) then record ch { old = assign gpu_id value ch.old } else ch

module _ (c : Settings) (t : GpuList) where
  row : Text → Text
  row text = codes "[" ++ (c.action_name ++ (codes "] " ++ text))

  -- The row of a changed value is given to the callback as well.
  unfoldable pub tell : Bool → Text → Text → Watch → Watch
  unfolding row
  tell changed yes_ no_ st =
      if changed
      then record st { rows = st.rows ++ row yes_ ∷ []; callbacks = st.callbacks ++ row yes_ ∷ [] }
      else record st { rows = st.rows ++ row no_ ∷ [] }

  unfoldable pub note_speed : ℕ → Text → Watch → Watch
  unfolding tell
  note_speed gpu_id value st =
      let r = compare_value gpu_id value st.speed in
      tell r.1 (to_string gpu_id ++ (codes " PCIe link speed changed " ++ value))
        (codes "pesm " ++ (to_string gpu_id ++ (codes " PCIe link speed unchanged " ++ value)))
        (record st { speed = r.0 })

  unfoldable pub note_power : ℕ → Text → Watch → Watch
  unfolding tell
  note_power gpu_id value st =
      let r = compare_value gpu_id value st.power in
      tell r.1 (to_string gpu_id ++ (codes " PCIe power state changed " ++ value))
        (to_string gpu_id ++ (codes " PCIe power state unchanged " ++ value))
        (record st { power = r.0 })

  -- From the speed of the link on; the first power state of a GPU ends the round.
  unfoldable pub observe : ℕ → Text → Text → Watch → Watch
  unfolding note_speed note_power
  observe gpu_id speed power st =
      let s = record st { speed = first_value gpu_id speed st.speed } in
      if is_nil (lookup gpu_id st.power.old)
      then record s { power = first_value gpu_id power st.power }
      else note_power gpu_id power (note_speed gpu_id speed s)

  -- The GPU of a device that is watched. A table in which a look-up faults is not considered.
  unfoldable pub filtered : ℕ → ℕ → ℕ → Option ℕ
  filtered dev_device_id gpu_id gpu_idx =
      if not (c.device_id == 0) && not (dev_device_id == c.device_id)
      then none
      else if c.bfiltergpu && not (contains gpu_id c.gpuids)
      then none
      else if c.bfiltergpuidx && not (contains gpu_idx c.gpuidx)
      then none
      else some gpu_id

  unfoldable pub watched : PciDev → Option ℕ
  unfolding filtered
  watched d =
      let loc = location (record { domain = 0; bus = d.bus; device = d.dev; function = d.func }) in
      elim (location2gpu t loc) [
        | absent ↦ none
        | fault ↦ none
        | found gpu_id ↦ elim (gpu2gpuindex t gpu_id) [
          | absent ↦ none
          | fault ↦ none
          | found gpu_idx ↦ filtered d.device_id gpu_id gpu_idx
        ]
      ]

  -- One device of a scan.
  unfoldable pub visit : PciDev → Watch → Watch
  unfolding watched observe
  visit d st = elim (watched d) [
    | none ↦ st
    | some gpu_id ↦ observe gpu_id (get_link_stat_cur_speed d) (get_pwr_curr_state d) st
  ]

  -- One scan of the bus.
  unfoldable pub scan : List PciDev → Watch → Watch
  scan [] st = st
  scan (d ∷ devices) st = scan devices (visit d st)

  -- The scans until `brun` is false.
  unfoldable pub monitor : List (List PciDev) → Watch → Watch
  monitor [] st = st
  monitor (devices ∷ scans) st = monitor scans (scan devices st)

-- The rows at the end.
unfoldable pub report_changes : Text → Text → Numbered → List Text
report_changes stop_action_name what =
    map
      (λ i. codes "[" ++ (stop_action_name ++ (codes "] GPU " ++ (to_string i.0 ++ (what ++ i.1)))))

unfoldable pub run_worker : Settings → GpuList → List (List PciDev) → Watch
run_worker c t scans =
    let st = monitor c t scans started in
    record st {
      rows =
          (codes "["
              ++ (c.action_name ++ codes "] PCIe link speed and power monitoring started ..."))
            ∷ st.rows
          ++ report_changes c.stop_action_name (codes " PCIe speed change ") st.speed.change
          ++ report_changes c.stop_action_name (codes " PCIe power change ") st.power.change
          ++ (codes "["
              ++ (c.stop_action_name ++ codes "] PCIe monitoring ended after wait duration."))
            ∷ [];
      callbacks =
          st.callbacks
          ++ (codes "["
              ++ (c.stop_action_name ++ codes "] PCIe monitoring ended after wait duration."))
            ∷ [];
    }
