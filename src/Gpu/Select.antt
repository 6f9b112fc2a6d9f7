-- ===== src/Gpu/Select.antt =====
-- `fetch_gpu_list` of src/rvs_util.cpp. What HIP and the file system tell of the device `i` is a
-- parameter: its PCI address, whether its architecture name holds "gfx90a", and whether it is a
-- secondary die (`gpu_check_if_mcm_die`). The messages for the log are kept as data.
pub mod Round
pub mod Chosen
use Prim.Native.Nat.{bit_or}
use rocm_validation_suite.Prelude.{
  ℕ, zero, suc, ◌*◌, ◌%◌, ◌+◌, ◌^◌, Bool, true, false, not, ◌&&◌, ◌||◌, Option, none, some, List,
  [], ◌∷◌, ◌++◌, ltb, ◌==◌, if◌then◌else◌,
}
use rocm_validation_suite.Gpu.Table.{
  GpuList, Found, absent, found, fault, domlocation2gpu, gpu2device, gpu2gpuindex,
}

pub record Pci : Type 0 where
  pub domain : ℕ
  pub bus : ℕ
  pub device : ℕ
  pub function : ℕ

pub record Platform : Type 0 where
  pub table : GpuList
  pub bdf : ℕ → Pci
  pub is_gfx90a : ℕ → Bool
  pub is_mcm_die : ℕ → Bool

-- The properties of the action that choose GPUs. `device_id` is an `int`; no negative one is
-- modelled, which the code treats as 0.
pub record Choice : Type 0 where
  pub devices : List ℕ
  pub device_id : ℕ
  pub device_all : Bool
  pub indexes : List ℕ
  pub index_all : Bool
  pub mcm_check : Bool

pub data McmType : Type 0 where
  primary secondary : McmType

pub data Note : Type 0 where
  mcm_die_note : ℕ → ℕ → Note
  mcm_system_note : Note

-- `gpus` is `gpus_device_index`, `overrun` a read past the end of a vector of the table.
pub record Fetch : Type 0 where
  pub gpus : List (ℕ × ℕ)
  pub amd_gpus_found : Bool
  pub amd_mcm_gpu_found : Bool
  pub mcm_type : List McmType
  pub notes : List Note
  pub overrun : Bool

-- `std::map::insert`, which leaves an entry that is there.
unfoldable pub insert_gpu : ℕ → ℕ → List (ℕ × ℕ) → List (ℕ × ℕ)
insert_gpu i gpu [] = (i, gpu) ∷ []
insert_gpu i gpu ((j, g) ∷ m) = if j == i then (j, g) ∷ m else (j, g) ∷ insert_gpu i gpu m

unfoldable pub contains : ℕ → List ℕ → Bool
contains x [] = false
contains x (y ∷ ys) = (y == x) || contains x ys

-- `(bus << 8) | (device << 3) | function`, passed on as a `uint16_t`.
unfoldable pub location : Pci → ℕ
location p =
    bit_or (bit_or (p.bus * 2 ^ 8 % 2 ^ 32) (p.device * 2 ^ 3 % 2 ^ 32)) p.function % 2 ^ 16

unfoldable pub selected : Choice → ℕ → ℕ → Bool
unfolding contains
selected c gpu_id gpu_idx =
    (c.device_all || c.index_all) || (contains gpu_id c.devices || contains gpu_idx c.indexes)

unfoldable pub check_mcm : Platform → Choice → ℕ → ℕ → ℕ → Fetch → Fetch
check_mcm p c i gpu dev st =
    if c.mcm_check && p.is_gfx90a i
    then if p.is_mcm_die i
      then record st {
        notes = st.notes ++ mcm_die_note gpu dev ∷ [];
        amd_mcm_gpu_found = true;
        mcm_type = st.mcm_type ++ secondary ∷ [];
      }
      else record st { mcm_type = st.mcm_type ++ primary ∷ [] }
    else if c.mcm_check
    then record st { mcm_type = st.mcm_type ++ primary ∷ [] }
    else st

-- The end of a round, for a GPU that is in the table.
unfoldable pub keep_gpu : Platform → Choice → ℕ → ℕ → ℕ → ℕ → Fetch → Fetch
unfolding check_mcm selected insert_gpu
keep_gpu p c i gpu dev idx st =
    if ltb 0 c.device_id && not (c.device_id == dev)
    then st
    else let st' = check_mcm p c i gpu dev st in
      if selected c gpu idx
      then record st' { gpus = insert_gpu i gpu st'.gpus; amd_gpus_found = true }
      else st'

-- The round for the device `i`; `continue` leaves the state as it is.
unfoldable pub fetch_one : Platform → Choice → ℕ → Fetch → Fetch
unfolding keep_gpu location
fetch_one p c i st =
    elim (domlocation2gpu p.table ((p.bdf i).domain % 2 ^ 16) (location (p.bdf i))) [
      | absent ↦ st
      | fault ↦ record st { overrun = true }
      | found gpu ↦ elim (gpu2device p.table gpu) [
        | absent ↦ st
        | fault ↦ record st { overrun = true }
        | found dev ↦ elim (gpu2gpuindex p.table gpu) [
          | absent ↦ st
          | fault ↦ record st { overrun = true }
          | found idx ↦ keep_gpu p c i gpu dev idx st
        ]
      ]
    ]

-- The rounds for the devices below `n`, in order.
unfoldable pub fetch_loop : Platform → Choice → ℕ → Fetch → Fetch
fetch_loop p c zero st = st
fetch_loop p c (suc n) st = fetch_one p c n (fetch_loop p c n st)

unfoldable pub fetch_gpu_list : Platform → Choice → ℕ → List (ℕ × ℕ) → Fetch
unfolding fetch_loop
fetch_gpu_list p c hip_num_gpu_devices gpus_device_index =
    let st = fetch_loop p c hip_num_gpu_devices (record {
      gpus = gpus_device_index;
      amd_gpus_found = false;
      amd_mcm_gpu_found = false;
      mcm_type = [];
      notes = [];
      overrun = false;
    }) in
    if st.amd_mcm_gpu_found && c.mcm_check
    then record st { notes = st.notes ++ mcm_system_note ∷ [] }
    else st
