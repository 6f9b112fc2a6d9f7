-- ===== src/Gpu/Table.antt =====
-- `rvs::gpulist` of src/gpu_util.cpp: parallel vectors, with a map from PCI domain and location
-- to GPU, and the look-ups over them.
pub mod Correct
use rocm_validation_suite.Prelude.{
  ℕ, zero, suc, Bool, ◌&&◌, Option, none, some, List, [], ◌∷◌, Text, get_elem?, ◌==◌, if◌then◌else◌,
}

pub record GpuList : Type 0 where
  pub location_id : List ℕ
  pub gpu_id : List ℕ
  pub gpu_idx : List ℕ
  pub device_id : List ℕ
  pub node_id : List ℕ
  pub domain_id : List ℕ
  pub domain_loc_map : List ((ℕ × ℕ) × ℕ)
  pub pci_bdf : List Text

-- `absent` is the return value -1, `found` is 0 with the value stored, and `fault` is a read past
-- the end of a vector.
pub data Found (A : Type 0) : Type 0 where
  absent : Found A
  found : A → Found A
  fault : Found A

-- `std::distance(cbegin, std::find(…))`
unfoldable pub position : ℕ → List ℕ → Option ℕ
position x [] = none
position x (y ∷ ys) =
    if y == x then some 0 else elim (position x ys) [ none ↦ none | some p ↦ some (suc p) ]

read_at : {A : Type 0} → Option ℕ → List A → Found A
read_at none values = absent
read_at (some pos) values = elim (get_elem? values pos) [ none ↦ fault | some v ↦ found v ]

-- The value beside the first `key` of a column.
unfoldable pub beside : {A : Type 0} → ℕ → List ℕ → List A → Found A
unfolding position read_at
beside key keys values = read_at (position key keys) values

map_find : ℕ → ℕ → List ((ℕ × ℕ) × ℕ) → Option ℕ
map_find d l [] = none
map_find d l (((d', l'), g) ∷ m) = if (d' == d) && (l' == l) then some g else map_find d l m

module _ (t : GpuList) where
  unfoldable pub gpu2location : ℕ → Found ℕ
  gpu2location id = beside id t.gpu_id t.location_id

  unfoldable pub location2gpu : ℕ → Found ℕ
  location2gpu id = beside id t.location_id t.gpu_id

  unfoldable pub node2gpu : ℕ → Found ℕ
  node2gpu id = beside id t.node_id t.gpu_id

  unfoldable pub node2bdf : ℕ → Found Text
  node2bdf id = beside id t.node_id t.pci_bdf

  unfoldable pub location2device : ℕ → Found ℕ
  location2device id = beside id t.location_id t.device_id

  unfoldable pub gpu2device : ℕ → Found ℕ
  gpu2device id = beside id t.gpu_id t.device_id

  unfoldable pub gpu2gpuindex : ℕ → Found ℕ
  gpu2gpuindex id = beside id t.gpu_id t.gpu_idx

  unfoldable pub gpu2node : ℕ → Found ℕ
  gpu2node id = beside id t.gpu_id t.node_id

  unfoldable pub location2node : ℕ → Found ℕ
  location2node id = beside id t.location_id t.node_id

  unfoldable pub gpu2domain : ℕ → Found ℕ
  gpu2domain id = beside id t.gpu_id t.domain_id

  unfoldable pub domlocation2gpu : ℕ → ℕ → Found ℕ
  unfolding map_find
  domlocation2gpu domain location = elim (map_find domain location t.domain_loc_map) [
    | none ↦ absent
    | some gpu ↦ found gpu
  ]

  unfoldable pub domlocation2node : ℕ → ℕ → Found ℕ
  unfolding map_find gpu2node
  domlocation2node domain location = elim (map_find domain location t.domain_loc_map) [
    | none ↦ absent
    | some gpu ↦ gpu2node gpu
  ]
