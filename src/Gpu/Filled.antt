-- ===== src/Gpu/Filled.antt =====
-- When `Initialize` of src/gpu_util.cpp fills the vectors of the table to one length.
use rocm_validation_suite.Prelude.{
  ℕ, suc, ◌+◌, ◌%◌, ◌^◌, ◌≡◌, refl, ◌∙◌, inl, inr, false, Option, some, List, [], ◌∷◌, ◌++◌, Text,
  codes, Map, find, str_eq, length, length-append, All, map, ◌==◌, arith, Bool-cases, if◌then◌else◌,
}
use rocm_validation_suite.Gpu.Table.Correct.{IsTable}
use rocm_validation_suite.Gpu.Initialize.{
  Node, all_first, gpu_get_all_location_id, gpu_get_all_device_id, gpu_get_all_gpu_id, smi_index,
  gpu_get_all_gpu_idx, gpu_get_all_node_id, scan_domain, gpu_get_all_domain_id, gpu_get_all_pci_bdf,
  initialize_gpulist, put_place, scan_bdf,
}

-- How often a name stands in a file.
unfoldable pub occurrences : Text → Map ℕ → ℕ
occurrences name [] = 0
occurrences name ((prop_name, prop_val) ∷ props) =
    if str_eq prop_name name then 1 + occurrences name props else occurrences name props

-- A node that is no GPU, or one with a location, a device, a domain that stands once, and a place
-- in the list of the SMI library.
pub data IsDescribed (handles : List (Option ℕ)) (n : Node) : Type 0 where
  no_gpu : n.gpu_id ≡ 0 → IsDescribed handles n
  a_gpu :
      (l d i : ℕ)
      → (n.gpu_id == 0) ≡ false
      → find (codes "location_id") n.properties ≡ some l
      → find (codes "device_id") n.properties ≡ some d
      → smi_index 0 n.gpu_id handles ≡ some i
      → occurrences (codes "domain") n.properties ≡ 1
      → IsDescribed handles n

gpus : List Node → ℕ
gpus [] = 0
gpus (n ∷ nodes) = if n.gpu_id == 0 then gpus nodes else 1 + gpus nodes

scan_domain_lem :
    (props : Map ℕ) (v : ℕ × ℕ)
    → length (scan_domain props v).0 ≡ occurrences (codes "domain") props
unfolding scan_domain occurrences
scan_domain_lem [] v = refl
scan_domain_lem ((prop_name, prop_val) ∷ props) (domain_val, loc_val) =
    elim (Bool-cases (str_eq prop_name (codes "domain"))) [
      | inl domain_here ↦ rw domain_here (omega (arith, scan_domain_lem props (prop_val, loc_val)))
      | inr no_domain ↦ elim (Bool-cases (str_eq prop_name (codes "location_id"))) [
        | inl here ↦ rw (no_domain, here) (scan_domain_lem props (domain_val, prop_val))
        | inr other ↦ rw (no_domain, other) (scan_domain_lem props (domain_val, loc_val))
      ]
    ]

node_ids : (i : ℕ) (nodes : List Node) → length (gpu_get_all_node_id i nodes) ≡ gpus nodes
unfolding gpu_get_all_node_id gpus
node_ids i [] = refl
node_ids i (n ∷ nodes) = elim (Bool-cases (n.gpu_id == 0)) [
  | inl none_here ↦ rw none_here (node_ids (suc i) nodes)
  | inr some_gpu ↦ rw some_gpu (omega (arith, node_ids (suc i) nodes))
]

bdfs :
    (nodes : List Node) (v : Text × Text × Text) → length (gpu_get_all_pci_bdf nodes v) ≡ gpus nodes
unfolding gpu_get_all_pci_bdf gpus
bdfs [] v = refl
bdfs (n ∷ nodes) v = elim (Bool-cases (n.gpu_id == 0)) [
  | inl none_here ↦ rw none_here (bdfs nodes v)
  | inr some_gpu ↦ rw some_gpu (omega (arith, bdfs nodes (scan_bdf n.properties v)))
]

pushed :
    (g : ℕ) (old : List ℕ) (k : ℕ)
    → length (if g == 0 then old else old ++ g % 2 ^ 16 ∷ []) + k
      ≡ length old + (if g == 0 then k else 1 + k)
pushed g old k = elim (Bool-cases (g == 0)) [
  | inl none_here ↦ rw none_here refl
  | inr some_gpu ↦ rw some_gpu (omega (arith, length-append old (g % 2 ^ 16 ∷ [])))
]

ids :
    (nodes : List Node) (old : List ℕ)
    → length (gpu_get_all_gpu_id (map (λ n. n.gpu_id) nodes) old) ≡ length old + gpus nodes
unfolding gpu_get_all_gpu_id gpus
ids [] old = omega arith
ids (n ∷ nodes) old =
    ids nodes (if n.gpu_id == 0 then old else old ++ n.gpu_id % 2 ^ 16 ∷ [])
    ∙ pushed n.gpu_id old (gpus nodes)

module _ (handles : List (Option ℕ)) where
  locations :
      (nodes : List Node)
      → All (IsDescribed handles) nodes
      → length (all_first (codes "location_id") nodes) ≡ gpus nodes
  unfolding all_first gpus
  locations [] all = refl
  locations (n ∷ nodes) (no_gpu e, all) = ground (arith, e, locations nodes all)
  locations (n ∷ nodes) (a_gpu l d i g el ed ei one, all) =
      ground (arith, g, el, locations nodes all)

  devices :
      (nodes : List Node)
      → All (IsDescribed handles) nodes
      → length (all_first (codes "device_id") nodes) ≡ gpus nodes
  unfolding all_first gpus
  devices [] all = refl
  devices (n ∷ nodes) (no_gpu e, all) = ground (arith, e, devices nodes all)
  devices (n ∷ nodes) (a_gpu l d i g el ed ei one, all) = ground (arith, g, ed, devices nodes all)

  indexes :
      (nodes : List Node)
      → All (IsDescribed handles) nodes
      → length (gpu_get_all_gpu_idx handles nodes) ≡ gpus nodes
  unfolding gpu_get_all_gpu_idx gpus
  indexes [] all = refl
  indexes (n ∷ nodes) (no_gpu e, all) = ground (arith, e, indexes nodes all)
  indexes (n ∷ nodes) (a_gpu l d i g el ed ei one, all) = ground (arith, g, ei, indexes nodes all)

  domains :
      (nodes : List Node) (v : ℕ × ℕ) (m : List ((ℕ × ℕ) × ℕ))
      → All (IsDescribed handles) nodes
      → length (gpu_get_all_domain_id nodes v m).0 ≡ gpus nodes
  unfolding gpu_get_all_domain_id gpus
  domains [] v m all = refl
  domains (n ∷ nodes) v m (no_gpu e, all) = ground (arith, e, domains nodes v m all)
  domains (n ∷ nodes) v m (a_gpu l d i g el ed ei one, all) =
      let s = scan_domain n.properties v in
      let m' = put_place (s.1.0 % 2 ^ 16) (s.1.1 % 2 ^ 16) (n.gpu_id % 2 ^ 16) m in
      let rest = domains nodes s.1 m' all in
      let here = scan_domain_lem n.properties v in
      rw g
        (omega (arith, one, here, rest, length-append s.0 (gpu_get_all_domain_id nodes s.1 m').0))

  -- `Initialize` fills every vector of the table to one length, if each node that is a GPU has a
  -- location, a device and one domain in its file of properties, and the SMI library lists it.
  pub initialize-IsTable :
      (v : ℕ × ℕ) (nodes : List Node)
      → All (IsDescribed handles) nodes
      → IsTable (initialize_gpulist handles v nodes)
  unfolding initialize_gpulist gpu_get_all_location_id gpu_get_all_device_id
  initialize-IsTable v nodes all =
      let n = ids nodes [] in
      record {
        locations = omega (arith, n, locations nodes all);
        indexes = omega (arith, n, indexes nodes all);
        devices = omega (arith, n, devices nodes all);
        nodes = omega (arith, n, node_ids 0 nodes);
        domains = omega (arith, n, domains nodes v [] all);
        bdfs = omega (arith, n, bdfs nodes ([], [], []));
      }
