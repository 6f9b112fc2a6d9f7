-- ===== src/Gpu/Table/Correct.antt =====
-- The look-ups of `rvs::gpulist`, src/gpu_util.cpp, over vectors of one length.
use mathlib.Core.Path.{subst}
use rocm_validation_suite.Prelude.{
  ℕ, zero, suc, ◌≡◌, refl, ◌≢◌, ◌<◌, ◌⊎◌, inl, inr, sym, ◌∙◌, some, List, [], ◌∷◌, get_elem?,
  length, arith, All, ◌==◌, Bool-cases, Option-cases,
}
use rocm_validation_suite.Gpu.Table.{
  GpuList, absent, found, fault, position, beside, gpu2location, location2gpu, gpu2device,
  gpu2gpuindex, gpu2node, gpu2domain, node2gpu, node2bdf, location2device, location2node,
}

-- The vectors have one length.
pub record IsTable (t : GpuList) : Type 0 where
  pub locations : length t.location_id ≡ length t.gpu_id
  pub indexes : length t.gpu_idx ≡ length t.gpu_id
  pub devices : length t.device_id ≡ length t.gpu_id
  pub nodes : length t.node_id ≡ length t.gpu_id
  pub domains : length t.domain_id ≡ length t.gpu_id
  pub bdfs : length t.pci_bdf ≡ length t.gpu_id

-- Every value occurs once.
abbrev pub AllDistinct : List ℕ → Type 0
AllDistinct [] = Unit
AllDistinct (x ∷ xs) = All (λ y. y ≢ x) xs × AllDistinct xs

-- The value at position `p` of the table's columns.
position-get : (x : ℕ) (xs : List ℕ) {p : ℕ} → position x xs ≡ some p → get_elem? xs p ≡ some x
unfolding position
position-get x [] h = cc
position-get x (y ∷ ys) {p} h = elim (Bool-cases (y == x)) [
  | inl same ↦ elim (Option-cases (position x ys)) [
    | inl n ↦ subst (λ q. get_elem? (y ∷ ys) q ≡ some x) {x = 0} (ground arith) (ground arith)
    | inr n ↦ subst (λ q. get_elem? (y ∷ ys) q ≡ some x) {x = 0} (ground arith) (ground arith)
  ]
  | inr other ↦ elim (Option-cases (position x ys)) [
    | inl n ↦ absurd (ground (arith, n))
    | inr (q, e) ↦
        subst (λ r. get_elem? (y ∷ ys) r ≡ some x) {x = suc q} (ground (arith, e))
          (position-get x ys e)
  ]
]

All-get : (P : ℕ → Type 0) (xs : List ℕ) (p : ℕ) {x : ℕ} → All P xs → get_elem? xs p ≡ some x → P x
All-get P [] p h e = cc
All-get P (y ∷ ys) zero h e = subst P (ground arith) h.0
All-get P (y ∷ ys) (suc p) h e = All-get P ys p h.1 e

get-position :
    (x : ℕ) (xs : List ℕ) (p : ℕ)
    → AllDistinct xs
    → get_elem? xs p ≡ some x
    → position x xs ≡ some p
unfolding position
get-position x [] p d h = cc
get-position x (y ∷ ys) zero d h = ground arith
get-position x (y ∷ ys) (suc p) d h =
    ground (arith, get-position x ys p d.1 h, All-get (λ z. z ≢ y) ys p d.0 h)

get_lt : {A : Type 0} (xs : List A) (p : ℕ) → p < length xs → (x : A) × (get_elem? xs p ≡ some x)
get_lt [] p h = absurd (omega arith)
get_lt (x ∷ xs) zero h = (x, refl)
get_lt (x ∷ xs) (suc p) h = get_lt xs p (omega arith)

lt_get : {A : Type 0} (xs : List A) (p : ℕ) {x : A} → get_elem? xs p ≡ some x → p < length xs
lt_get [] p h = cc
lt_get (y ∷ xs) zero h = omega arith
lt_get (y ∷ xs) (suc p) h = omega (arith, lt_get xs p h)

-- The value beside a key, if there is one, stands in its row, and nothing is read out of bounds.
beside_row :
    {A : Type 0} (key : ℕ) (keys : List ℕ) (vals : List A)
    → length vals ≡ length keys
    → (beside key keys vals ≡ absent)
      ⊎ ((p : ℕ) × (v : A) × (beside key keys vals ≡ found v)
          × (get_elem? keys p ≡ some key)
          × (get_elem? vals p ≡ some v))
unfolding beside
beside_row key keys vals e = elim (Option-cases (position key keys)) [
  | inl n ↦ inl (ground (arith, n))
  | inr (p, at) ↦
      let k : get_elem? keys p ≡ some key = position-get key keys at in
      let (v, got) = get_lt vals p (omega (arith, lt_get keys p k)) in
      inr (p, v, ground (arith, at, got), k, got)
]

beside_fault :
    {A : Type 0} (key : ℕ) (keys : List ℕ) (vals : List A)
    → length vals ≡ length keys
    → beside key keys vals ≢ fault
beside_fault key keys vals e f = elim (beside_row key keys vals e) [
  | inl n ↦ ground (arith, n)
  | inr (p, v, n, _, _) ↦ ground (arith, n)
]

-- With vectors of one length no look-up by GPU, location or node reads past the end of a vector.
pub lookups_in_bounds :
    (t : GpuList) (id : ℕ)
    → IsTable t
    → (gpu2location t id ≢ fault)
      × (location2gpu t id ≢ fault)
      × (node2gpu t id ≢ fault)
      × (node2bdf t id ≢ fault)
      × (location2device t id ≢ fault)
      × (gpu2device t id ≢ fault)
      × (gpu2gpuindex t id ≢ fault)
      × (gpu2node t id ≢ fault)
      × (location2node t id ≢ fault)
      × (gpu2domain t id ≢ fault)
unfolding gpu2location location2gpu node2gpu node2bdf location2device gpu2device gpu2gpuindex
    gpu2node location2node gpu2domain
lookups_in_bounds t id w = (
  beside_fault id t.gpu_id t.location_id w.locations,
  beside_fault id t.location_id t.gpu_id (sym w.locations),
  beside_fault id t.node_id t.gpu_id (sym w.nodes),
  beside_fault id t.node_id t.pci_bdf (w.bdfs ∙ sym w.nodes),
  beside_fault id t.location_id t.device_id (w.devices ∙ sym w.locations),
  beside_fault id t.gpu_id t.device_id w.devices,
  beside_fault id t.gpu_id t.gpu_idx w.indexes,
  beside_fault id t.gpu_id t.node_id w.nodes,
  beside_fault id t.location_id t.node_id (w.nodes ∙ sym w.locations),
  beside_fault id t.gpu_id t.domain_id w.domains,
)

-- The row found by one key is found by the value that stands there, if such values are distinct.
beside_back :
    (key v : ℕ) (keys vals : List ℕ)
    → length vals ≡ length keys
    → AllDistinct vals
    → beside key keys vals ≡ found v
    → beside v vals keys ≡ found key
beside_back key v keys vals e d h = elim (beside_row key keys vals e) [
  | inl n ↦ absurd (ground (arith, n))
  | inr (p, u, n, k, got) ↦
      let same : get_elem? vals p ≡ some v = ground (arith, n) in
      unfold beside in ground (arith, get-position v vals p d same, k)
]

-- Where the GPU ids are distinct, `gpu2location` takes the GPU that `location2gpu` finds back to
-- the location that it was asked for.
pub gpu2location-location2gpu :
    (t : GpuList) (id gpu : ℕ)
    → IsTable t
    → AllDistinct t.gpu_id
    → location2gpu t id ≡ found gpu
    → gpu2location t gpu ≡ found id
unfolding gpu2location location2gpu
gpu2location-location2gpu t id gpu w d h =
    beside_back id gpu t.location_id t.gpu_id (sym w.locations) d h

-- So too `gpu2node` after `node2gpu`.
pub gpu2node-node2gpu :
    (t : GpuList) (id gpu : ℕ)
    → IsTable t
    → AllDistinct t.gpu_id
    → node2gpu t id ≡ found gpu
    → gpu2node t gpu ≡ found id
unfolding gpu2node node2gpu
gpu2node-node2gpu t id gpu w d h = beside_back id gpu t.node_id t.gpu_id (sym w.nodes) d h
