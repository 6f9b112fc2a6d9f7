-- ===== src/Gpu/Initialize.antt =====
-- `Initialize` of `rvs::gpulist`, src/gpu_util.cpp: the readers of /sys that fill the table. A node's
-- `gpu_id` and its file of properties, names with numbers, are given, and so is what the SMI library
-- answers.
use rocm_validation_suite.Prelude.{
  ℕ, zero, suc, ◌+◌, ◌-◌, ◌/◌, ◌%◌, ◌^◌, ◌&&◌, Option, none, some, List, [], ◌∷◌, ◌++◌, Text, codes,
  Map, find, str_eq, length, take, drop, map, ◌==◌, ltb, if◌then◌else◌,
}
use rocm_validation_suite.Gpu.Table.{GpuList}

pub record Node : Type 0 where
  pub gpu_id : ℕ
  pub properties : Map ℕ

-- The first value of a property of each GPU, which is pushed as a `uint16_t`.
unfoldable pub all_first : Text → List Node → List ℕ
all_first name [] = []
all_first name (n ∷ nodes) =
    let rest = all_first name nodes in
    if n.gpu_id == 0
    then rest
    else elim (find name n.properties) [ none ↦ rest | some prop_val ↦ prop_val % 2 ^ 16 ∷ rest ]

unfoldable pub gpu_get_all_location_id : List Node → List ℕ
unfolding all_first
gpu_get_all_location_id nodes = all_first (codes "location_id") nodes

unfoldable pub gpu_get_all_device_id : List Node → List ℕ
unfolding all_first
gpu_get_all_device_id nodes = all_first (codes "device_id") nodes

-- The nodes' `gpu_id`, but for 0.
unfoldable pub gpu_get_all_gpu_id : List ℕ → List ℕ → List ℕ
gpu_get_all_gpu_id [] pgpus_id = pgpus_id
gpu_get_all_gpu_id (gpu_id ∷ nodes) pgpus_id =
    gpu_get_all_gpu_id nodes (if gpu_id == 0 then pgpus_id else pgpus_id ++ (gpu_id % 2 ^ 16) ∷ [])

-- The index of the first processor with a `kfd_id`; `none` where the library does not know it.
unfoldable pub smi_index : ℕ → ℕ → List (Option ℕ) → Option ℕ
smi_index i gpu_id [] = none
smi_index i gpu_id (none ∷ handles) = smi_index (suc i) gpu_id handles
smi_index i gpu_id (some kfd_id ∷ handles) =
    let rest = smi_index (suc i) gpu_id handles in
    if kfd_id == gpu_id then some (i % 2 ^ 16) else rest

-- A GPU that the SMI library does not list has no entry.
unfoldable pub gpu_get_all_gpu_idx : List (Option ℕ) → List Node → List ℕ
unfolding smi_index
gpu_get_all_gpu_idx handles [] = []
gpu_get_all_gpu_idx handles (n ∷ nodes) =
    let rest = gpu_get_all_gpu_idx handles nodes in
    if n.gpu_id == 0
    then rest
    else elim (smi_index 0 n.gpu_id handles) [ none ↦ rest | some i ↦ i ∷ rest ]

-- From a node on.
unfoldable pub gpu_get_all_node_id : ℕ → List Node → List ℕ
gpu_get_all_node_id node_id [] = []
gpu_get_all_node_id node_id (n ∷ nodes) =
    let rest = gpu_get_all_node_id (suc node_id) nodes in
    if n.gpu_id == 0 then rest else node_id % 2 ^ 16 ∷ rest

-- The domains of a file of properties, with the last domain and the last location.
unfoldable pub scan_domain : Map ℕ → ℕ × ℕ → List ℕ × (ℕ × ℕ)
scan_domain [] v = ([], v)
scan_domain ((prop_name, prop_val) ∷ props) (domain_val, loc_val) =
    let with_domain = scan_domain props (prop_val, loc_val) in
    let with_location = scan_domain props (domain_val, prop_val) in
    let rest = scan_domain props (domain_val, loc_val) in
    if str_eq prop_name (codes "domain")
    then (prop_val % 2 ^ 16 ∷ with_domain.0, with_domain.1)
    else if str_eq prop_name (codes "location_id")
    then with_location
    else rest

-- `m[{d, l}] = g`
unfoldable pub put_place : ℕ → ℕ → ℕ → List ((ℕ × ℕ) × ℕ) → List ((ℕ × ℕ) × ℕ)
put_place d l g [] = ((d, l), g) ∷ []
put_place d l g (((d', l'), g') ∷ m) =
    let rest = put_place d l g m in
    if (d' == d) && (l' == l) then ((d, l), g) ∷ m else ((d', l'), g') ∷ rest

-- A value that a node does not have is that of the node before it.
unfoldable pub gpu_get_all_domain_id :
    List Node → ℕ × ℕ → List ((ℕ × ℕ) × ℕ) → List ℕ × List ((ℕ × ℕ) × ℕ)
unfolding scan_domain put_place
gpu_get_all_domain_id [] v m = ([], m)
gpu_get_all_domain_id (n ∷ nodes) v m =
    let scanned = scan_domain n.properties v in
    let m' = put_place (scanned.1.0 % 2 ^ 16) (scanned.1.1 % 2 ^ 16) (n.gpu_id % 2 ^ 16) m in
    let here = gpu_get_all_domain_id nodes scanned.1 m' in
    let rest = gpu_get_all_domain_id nodes v m in
    if n.gpu_id == 0 then rest else (scanned.0 ++ here.0, here.1)

hex_digits : ℕ → ℕ → Text → Text
hex_digits zero n out = out
hex_digits (suc fuel) n out =
    let d = n % 16 in
    let out' = (if ltb d 10 then b'0' + d else b'a' + (d - 10)) ∷ out in
    let more = hex_digits fuel (n / 16) out' in if ltb n 16 then out' else more

pad : ℕ → Text → Text
pad zero s = s
pad (suc n) s = b'0' ∷ pad n s

-- `std::hex` of a `uint32_t`, with zeros up to four digits.
unfoldable pub hex4 : ℕ → Text
unfolding hex_digits pad
hex4 n = let s = hex_digits 8 n [] in pad (4 - length s) s

-- The three parts of an address, after the properties of a node.
unfoldable pub scan_bdf : Map ℕ → Text × Text × Text → Text × Text × Text
unfolding hex4
scan_bdf [] v = v
scan_bdf ((prop_name, prop_val) ∷ props) (domain, bus, device) =
    let with_domain = scan_bdf props (hex4 prop_val, bus, device) in
    let with_location =
      scan_bdf props (domain, take 2 (hex4 prop_val), take 2 (drop 2 (hex4 prop_val))) in
    let rest = scan_bdf props (domain, bus, device) in
    if str_eq prop_name (codes "domain")
    then with_domain
    else if str_eq prop_name (codes "location_id")
    then with_location
    else rest

unfoldable pub gpu_get_all_pci_bdf : List Node → Text × Text × Text → List Text
unfolding scan_bdf
gpu_get_all_pci_bdf [] v = []
gpu_get_all_pci_bdf (n ∷ nodes) v =
    let (domain, bus, device) = scan_bdf n.properties v in
    let here = gpu_get_all_pci_bdf nodes (domain, bus, device) in
    let rest = gpu_get_all_pci_bdf nodes v in
    if n.gpu_id == 0
    then rest
    else (domain ++ (codes ":" ++ (bus ++ (codes ":" ++ (device ++ codes ".0"))))) ∷ here

-- `v` are the numbers that `domain_val` and `loc_val` have at first.
unfoldable pub initialize_gpulist : List (Option ℕ) → ℕ × ℕ → List Node → GpuList
unfolding gpu_get_all_location_id gpu_get_all_device_id gpu_get_all_gpu_idx gpu_get_all_gpu_id
    gpu_get_all_node_id gpu_get_all_domain_id gpu_get_all_pci_bdf
initialize_gpulist handles v nodes =
    let domains = gpu_get_all_domain_id nodes v [] in
    record {
      location_id = gpu_get_all_location_id nodes;
      gpu_id = gpu_get_all_gpu_id (map (λ n. n.gpu_id) nodes) [];
      gpu_idx = gpu_get_all_gpu_idx handles nodes;
      device_id = gpu_get_all_device_id nodes;
      node_id = gpu_get_all_node_id 0 nodes;
      domain_id = domains.0;
      domain_loc_map = domains.1;
      pci_bdf = gpu_get_all_pci_bdf nodes ([], [], []);
    }
