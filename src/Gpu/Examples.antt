-- ===== src/Gpu/Examples.antt =====
-- A table of two GPUs.
use rocm_validation_suite.Gpu.Initialize.{
  Node, smi_index, initialize_gpulist, gpu_get_all_pci_bdf, scan_bdf, hex4,
}
use rocm_validation_suite.Gpu.Filled.{IsDescribed, no_gpu, a_gpu, initialize-IsTable, occurrences}
use rocm_validation_suite.Prelude.{
  ◌+◌, ◌<◌, ◌≡◌, refl, ◌≢◌, ◌↔◌, false, some, [], ◌∷◌, codes, ℕ, Option, List, All, find, str_eq,
  ◌==◌,
}
use rocm_validation_suite.Gpu.Table.{
  GpuList, beside, domlocation2gpu, found, fault, gpu2location, location2gpu, node2gpu, node2bdf,
  location2device, gpu2device, gpu2gpuindex, gpu2node, location2node, gpu2domain,
}
use rocm_validation_suite.Gpu.Table.Correct.{IsTable, lookups_in_bounds}
use rocm_validation_suite.Gpu.Select.{Platform, Choice, fetch_one, fetch_gpu_list}
use rocm_validation_suite.Gpu.Select.Round.{gpu_at, IsChosen}
use rocm_validation_suite.Gpu.Select.Chosen.{fetch_selects}

abbrev table : GpuList
table = record {
  location_id = 768 ∷ 1024 ∷ [];
  gpu_id = 3254 ∷ 50599 ∷ [];
  gpu_idx = 0 ∷ 1 ∷ [];
  device_id = 29631 ∷ 29631 ∷ [];
  node_id = 1 ∷ 2 ∷ [];
  domain_id = 0 ∷ 0 ∷ [];
  domain_loc_map = ((0, 768), 3254) ∷ ((0, 1024), 50599) ∷ [];
  pci_bdf = codes "0000:03:00.0" ∷ codes "0000:04:00.0" ∷ [];
}

table-IsTable : IsTable table
table-IsTable = record {
  locations = refl;
  indexes = refl;
  devices = refl;
  nodes = refl;
  domains = refl;
  bdfs = refl;
}

lookups_in_bounds_example :
    (gpu2location table 7 ≢ fault)
    × (location2gpu table 7 ≢ fault)
    × (node2gpu table 7 ≢ fault)
    × (node2bdf table 7 ≢ fault)
    × (location2device table 7 ≢ fault)
    × (gpu2device table 7 ≢ fault)
    × (gpu2gpuindex table 7 ≢ fault)
    × (gpu2node table 7 ≢ fault)
    × (location2node table 7 ≢ fault)
    × (gpu2domain table 7 ≢ fault)
lookups_in_bounds_example = lookups_in_bounds table 7 table-IsTable

located : location2gpu table 1024 ≡ found 50599
unfolding location2gpu beside
located = refl

placed : node2gpu table 1 ≡ found 3254
unfolding node2gpu beside
placed = refl

abbrev platform : Platform
platform = record {
  table = table;
  bdf = λ i. record { domain = 0; bus = 3 + i; device = 0; function = 0 };
  is_gfx90a = λ i. false;
  is_mcm_die = λ i. false;
}

abbrev choice : Choice
choice = record {
  devices = 50599 ∷ [];
  device_id = 0;
  device_all = false;
  indexes = [];
  index_all = false;
  mcm_check = false;
}

second_only : (fetch_gpu_list platform choice 2 []).gpus ≡ ((1, 50599) ∷ [])
unfolding fetch_gpu_list fetch_one domlocation2gpu gpu2device beside gpu2gpuindex
second_only = refl

fetch_selects_example :
    (gpu_at 1 (fetch_gpu_list platform choice 2 []).gpus ≡ some 50599)
    ↔ ((1 < 2) × IsChosen platform choice 1 50599)
fetch_selects_example = fetch_selects platform choice 2 1 50599

-- A processor and two GPUs; the SMI library lists the second GPU first.
abbrev gpu_node : ℕ → ℕ → Node
gpu_node gpu_id location_id = record {
  gpu_id = gpu_id;
  properties =
      (codes "device_id", 26273) ∷ (codes "location_id", location_id) ∷ (codes "domain", 0) ∷ [];
}

abbrev nodes : List Node
nodes = record { gpu_id = 0; properties = [] } ∷ gpu_node 3254 768 ∷ gpu_node 50599 1792 ∷ []

abbrev processors : List (Option ℕ)
processors = some 50599 ∷ some 3254 ∷ []

gpu_node-IsDescribed :
    (gpu_id location_id i : ℕ)
    → (gpu_id == 0) ≡ false
    → smi_index 0 gpu_id processors ≡ some i
    → IsDescribed processors (gpu_node gpu_id location_id)
unfolding find str_eq occurrences
gpu_node-IsDescribed gpu_id location_id i g known = a_gpu location_id 26273 i g refl refl known refl

nodes-IsDescribed : All (IsDescribed processors) nodes
unfolding smi_index
nodes-IsDescribed = (
  no_gpu refl,
  (gpu_node-IsDescribed 3254 768 1 refl refl, (gpu_node-IsDescribed 50599 1792 0 refl refl, tt)),
)

initialize-IsTable_example : IsTable (initialize_gpulist processors (0, 0) nodes)
initialize-IsTable_example = initialize-IsTable processors (0, 0) nodes nodes-IsDescribed

bdf_of_nodes :
    (initialize_gpulist processors (0, 0) nodes).pci_bdf
    ≡ (codes "0000:03:00.0" ∷ codes "0000:07:00.0" ∷ [])
unfolding initialize_gpulist gpu_get_all_pci_bdf scan_bdf hex4 str_eq
bdf_of_nodes = refl
