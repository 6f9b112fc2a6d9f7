-- ===== src/Gm/First.antt =====
-- Which handles a monitor of gm.so/src/action.cpp gets.
use mathlib.Core.Path.{subst}
use rocm_validation_suite.Prelude.{
  ℕ, ◌≡◌, refl, sym, ap, ◌∙◌, ◌⊎◌, inl, inr, Option, none, some, List, [], ◌∷◌, Text, codes, All,
  str_eq, is_nil, ◌==◌, ltb, arith, Bool-cases, if◌then◌else◌,
}
use rocm_validation_suite.Action.Keys.{get_all_common_config_keys}
use rocm_validation_suite.Gpu.Table.{Found, absent, found, fault, gpu2location}
use rocm_validation_suite.Gm.Config.{get_all_gm_config_keys}
use rocm_validation_suite.Gm.Handles.{insert_handle, find_handle, get_smi_pci_map, smi_dev_ind_get}
use rocm_validation_suite.Gpu.Initialize.{gpu_get_all_gpu_id}
use rocm_validation_suite.Gm.Action.{
  System, Running, GmSession, Handled, handled, without_location, property_at, with_device_id,
  device_handles, callback, refuse, stop_running, start_worker, select, configure, run_gm,
}
use rocm_validation_suite.Gm.Results.{stop_idle}

Found-cases : (x : Found ℕ) → ((v : ℕ) × (x ≡ found v)) ⊎ ((x ≡ absent) ⊎ (x ≡ fault))
Found-cases absent = inr (inl refl)
Found-cases (found v) = inl (v, refl)
Found-cases fault = inr (inr refl)

-- Which handle a GPU has: none, or the first of the map, and then the GPU is at its location.
abbrev pub IsFirst : System → ℕ → ℕ → ℕ × ℕ → Type 0
IsFirst w location h d = (d.1 ≡ 0) ⊎ ((gpu2location w.table d.0 ≡ found location) × (d.1 ≡ h))

insert_all :
    (P : ℕ × ℕ → Type 0) (key h : ℕ) (m : List (ℕ × ℕ))
    → All P m
    → P (key, h)
    → All P (insert_handle key h m)
unfolding insert_handle
insert_all P key h [] all ok = (ok, tt)
insert_all P key h ((k, h') ∷ m) all ok = elim (Bool-cases (key == k)) [
  | inl same ↦ rw same all
  | inr other ↦ elim (Bool-cases (ltb key k)) [
    | inl below ↦ rw (other, below) (ok, all)
    | inr above ↦ rw (other, above) (all.0, insert_all P key h m all.1 ok)
  ]
]

module _ (w : System) (location h : ℕ) (rest : List (ℕ × ℕ))
    (mapped : get_smi_pci_map w.sockets w.pci_map ≡ (location, h) ∷ rest) where
  found_first :
      (wanted : ℕ)
      → smi_dev_ind_get w.sockets w.pci_map wanted ≡ some (if location == wanted then h else 0)
  unfolding smi_dev_ind_get find_handle
  found_first wanted = rw mapped refl

  handle-IsFirst :
      (gpu wanted : ℕ)
      → gpu2location w.table gpu ≡ found wanted
      → IsFirst w location h (gpu, if location == wanted then h else 0)
  handle-IsFirst gpu wanted at = elim (Bool-cases (location == wanted)) [
    | inl same ↦
        rw same
          (inr (at ∙ ap (λ x. found x) {x = wanted} {y = location} (ground (arith, same)), refl))
    | inr other ↦ rw other (inl refl)
  ]

  abbrev AllFirst : Handled → Type 0
  AllFirst (handled m) = All (IsFirst w location h) m
  AllFirst (without_location gpu) = Unit

  next_found :
      (gpu wanted : ℕ) (gpus : List ℕ) (m : List (ℕ × ℕ))
      → gpu2location w.table gpu ≡ found wanted
      → device_handles w (gpu ∷ gpus) m
        ≡ device_handles w gpus (insert_handle gpu (if location == wanted then h else 0) m)
  unfolding device_handles
  next_found gpu wanted gpus m at = ground (arith, at, found_first wanted)

  next_missing :
      (gpu : ℕ) (gpus : List ℕ) (m : List (ℕ × ℕ))
      → gpu2location w.table gpu ≡ absent
      → device_handles w (gpu ∷ gpus) m ≡ without_location gpu
  unfolding device_handles
  next_missing gpu gpus m at = ground (arith, at)

  next_past :
      (gpu : ℕ) (gpus : List ℕ) (m : List (ℕ × ℕ))
      → gpu2location w.table gpu ≡ fault
      → device_handles w (gpu ∷ gpus) m ≡ without_location gpu
  unfolding device_handles
  next_past gpu gpus m at = ground (arith, at)

  handles_first :
      (gpus : List ℕ) (m : List (ℕ × ℕ))
      → All (IsFirst w location h) m
      → AllFirst (device_handles w gpus m)
  unfolding device_handles
  handles_first [] m all = all
  handles_first (gpu ∷ gpus) m all = elim (Found-cases (gpu2location w.table gpu)) [
    | inl (wanted, at) ↦ subst AllFirst (sym (next_found gpu wanted gpus m at)) (
        handles_first gpus _
          (insert_all (IsFirst w location h) gpu _ m all (handle-IsFirst gpu wanted at)))
    | inr (inl missing) ↦ subst AllFirst (sym (next_missing gpu gpus m missing)) tt
    | inr (inr past) ↦ subst AllFirst (sym (next_past gpu gpus m past)) tt
  ]

  -- The handles of a monitor that is running.
  abbrev pub Watched : Option Running → Type 0
  Watched none = Unit
  Watched (some worker) = All (IsFirst w location h) worker.dv_hdl

  idle-Watched : (o : Option Running) → o ≡ none → Watched o
  idle-Watched o e = subst Watched (sym e) tt

  refuse-Watched :
      (output : Text) (s : GmSession) → s.pworker ≡ none → Watched (refuse output s).1.pworker
  unfolding refuse callback
  refuse-Watched output s idle = idle-Watched s.pworker idle

  start-Watched :
      (x : Handled) (s : GmSession)
      → AllFirst x
      → s.pworker ≡ none
      → Watched (start_worker x s).1.pworker
  unfolding start_worker callback
  start-Watched (without_location gpu) s all idle = refuse-Watched _ _ idle
  start-Watched (handled dv_hdl) s all idle = all

  select-Watched : (s : GmSession) → s.pworker ≡ none → Watched (select w s).1.pworker
  unfolding select
  select-Watched s idle =
      let all =
        if s.action.base.property_device_all
        then gpu_get_all_gpu_id w.node_gpu_ids s.action.base.property_device
        else s.action.base.property_device in
      let gpus = with_device_id w.table s.action.base.property_device_id all in
      elim (Bool-cases (is_nil gpus)) [
        | inl empty ↦ rw empty (refuse-Watched _ _ idle)
        | inr some_gpu ↦ rw some_gpu (start-Watched _ _ (handles_first gpus [] tt) idle)
      ]

  configure-Watched : (s : GmSession) → s.pworker ≡ none → Watched (configure w s).1.pworker
  unfolding configure
  configure-Watched s idle =
      let common = get_all_common_config_keys s.action.base in
      let keys = get_all_gm_config_keys (record s.action { base = common.0 }) in
      elim (Bool-cases common.1) [
        | inr bad ↦ rw bad (refuse-Watched _ _ idle)
        | inl good ↦ elim (Bool-cases keys.1) [
          | inr bad ↦ rw (good, bad) (refuse-Watched _ _ idle)
          | inl fine ↦ rw (good, fine) (select-Watched _ idle)
        ]
      ]

  -- Where the map of the SMI library starts with a location and its handle, every GPU of a monitor
  -- that runs after `run` has a null handle, or is at that location and has its handle.
  pub run_gm_first : (s : GmSession) → Watched (run_gm w s).1.pworker
  unfolding run_gm callback
  run_gm_first s =
      let at = property_at (codes "monitor") (stop_running s).action.base in
      elim (Bool-cases (str_eq at.0 (codes "true"))) [
        | inl asked ↦ rw asked (configure-Watched _ (stop_idle s))
        | inr off ↦ rw off (idle-Watched _ (stop_idle s))
      ]
