-- ===== src/Gpu/Select/Round.antt =====
-- What one round of `fetch_gpu_list` of src/rvs_util.cpp does to the map of GPUs.
use mathlib.Core.List.{Memᴰ}
use rocm_validation_suite.Prelude.{
  ℕ, ◌%◌, ◌^◌, ◌≡◌, refl, ◌≢◌, ◌⊎◌, inl, inr, true, false, Option, none, some, List, [], ◌∷◌, arith,
  ◌==◌, if◌then◌else◌, Bool-cases, not, ltb, ◌&&◌,
}
use rocm_validation_suite.Gpu.Table.{
  Found, absent, found, fault, domlocation2gpu, gpu2device, gpu2gpuindex,
}
use rocm_validation_suite.Gpu.Select.{
  Platform, Choice, Fetch, insert_gpu, location, contains, selected, check_mcm, fetch_one,
}

-- `m[i]`
abbrev pub gpu_at : ℕ → List (ℕ × ℕ) → Option ℕ
gpu_at i [] = none
gpu_at i ((j, g) ∷ m) = if j == i then some g else gpu_at i m

-- How the properties of the action ask for a GPU.
pub data IsAsked (c : Choice) (gpu idx : ℕ) : Type 0 where
  by_all : c.device_all ≡ true → IsAsked c gpu idx
  by_all_indexes : c.index_all ≡ true → IsAsked c gpu idx
  by_id : Memᴰ gpu c.devices → IsAsked c gpu idx
  by_index : Memᴰ idx c.indexes → IsAsked c gpu idx

contains-Mem : (x : ℕ) (xs : List ℕ) → contains x xs ≡ true → Memᴰ x xs
unfolding contains
contains-Mem x [] e = absurd (ground (arith, e))
contains-Mem x (y ∷ ys) e = elim (Bool-cases (y == x)) [
  | inl same ↦ Memᴰ.head (ground (arith, same))
  | inr other ↦ Memᴰ.tail (contains-Mem x ys (ground (arith, e, other)))
]

Mem-contains : (x : ℕ) (xs : List ℕ) → Memᴰ x xs → contains x xs ≡ true
unfolding contains
Mem-contains x [] m = elim m [ ]
Mem-contains x (y ∷ ys) (Memᴰ.head e) = ground (arith, e)
Mem-contains x (y ∷ ys) (Memᴰ.tail m) = ground (arith, Mem-contains x ys m)

selected-IsAsked : (c : Choice) (gpu idx : ℕ) → selected c gpu idx ≡ true → IsAsked c gpu idx
unfolding selected
selected-IsAsked c gpu idx e = elim (Bool-cases c.device_all) [
  | inl all ↦ by_all all
  | inr no_all ↦ elim (Bool-cases c.index_all) [
    | inl all ↦ by_all_indexes all
    | inr no_indexes ↦ elim (Bool-cases (contains gpu c.devices)) [
      | inl named ↦ by_id (contains-Mem gpu c.devices named)
      | inr unnamed ↦
          by_index (contains-Mem idx c.indexes (ground (arith, e, no_all, no_indexes, unnamed)))
    ]
  ]
]

IsAsked-selected : (c : Choice) (gpu idx : ℕ) → IsAsked c gpu idx → selected c gpu idx ≡ true
unfolding selected
IsAsked-selected c gpu idx (by_all e) = ground (arith, e)
IsAsked-selected c gpu idx (by_all_indexes e) = ground (arith, e)
IsAsked-selected c gpu idx (by_id m) = ground (arith, Mem-contains gpu c.devices m)
IsAsked-selected c gpu idx (by_index m) = ground (arith, Mem-contains idx c.indexes m)

-- The device `i` is in the table as the GPU `gpu`, passes the filter on the device id, and is
-- asked for: by "all", by its GPU id or by its index.
pub record IsChosen (p : Platform) (c : Choice) (i gpu : ℕ) : Type 0 where
  pub dev : ℕ
  pub idx : ℕ
  pub located : domlocation2gpu p.table ((p.bdf i).domain % 2 ^ 16) (location (p.bdf i)) ≡ found gpu
  pub typed : gpu2device p.table gpu ≡ found dev
  pub indexed : gpu2gpuindex p.table gpu ≡ found idx
  pub filtered : (c.device_id ≡ 0) ⊎ (c.device_id ≡ dev)
  pub asked : IsAsked c gpu idx

-- One round, by what it does to the map.
pub data Round (p : Platform) (c : Choice) (i : ℕ) (st st' : Fetch) : Type 0 where
  passed :
      ((gpu : ℕ) → ¬ (IsChosen p c i gpu))
      → st'.gpus ≡ st.gpus
      → st'.amd_gpus_found ≡ st.amd_gpus_found
      → Round p c i st st'
  taken :
      (gpu : ℕ)
      → IsChosen p c i gpu
      → st'.gpus ≡ insert_gpu i gpu st.gpus
      → st'.amd_gpus_found ≡ true
      → Round p c i st st'

gpus-check_mcm :
    (p : Platform) (c : Choice) (i gpu dev : ℕ) (st : Fetch)
    → ((check_mcm p c i gpu dev st).gpus ≡ st.gpus)
      × ((check_mcm p c i gpu dev st).amd_gpus_found ≡ st.amd_gpus_found)
unfolding check_mcm
gpus-check_mcm p c i gpu dev st = ground arith

Found-cases : {A : Type 0} (r : Found A) → ((a : A) × (r ≡ found a)) ⊎ ((a : A) → r ≢ found a)
Found-cases absent = inr (λ a e. cc)
Found-cases (found a) = inl (a, refl)
Found-cases fault = inr (λ a e. cc)

module _ (p : Platform) (c : Choice) (i : ℕ) (st : Fetch) where
  abbrev located_at : Found ℕ
  located_at = domlocation2gpu p.table ((p.bdf i).domain % 2 ^ 16) (location (p.bdf i))

  Round-lost : ((g : ℕ) → located_at ≢ found g) → Round p c i st (fetch_one p c i st)
  unfolding fetch_one
  Round-lost h = passed (λ gpu k. h gpu k.located) (grind (arith, h)) (grind (arith, h))

  module _ (gpu : ℕ) (at : located_at ≡ found gpu) where
    Round-untyped :
        ((d : ℕ) → gpu2device p.table gpu ≢ found d) → Round p c i st (fetch_one p c i st)
    unfolding fetch_one
    Round-untyped h =
        passed (λ g k. h k.dev (ground (arith, at, k.located, k.typed))) (grind (arith, h, at))
          (grind (arith, h, at))

    Round-unindexed :
        (dev : ℕ)
        → gpu2device p.table gpu ≡ found dev
        → ((x : ℕ) → gpu2gpuindex p.table gpu ≢ found x)
        → Round p c i st (fetch_one p c i st)
    unfolding fetch_one
    Round-unindexed dev typed h =
        passed (λ g k. h k.idx (ground (arith, at, k.located, k.indexed)))
          (grind (arith, h, at, typed)) (grind (arith, h, at, typed))

    module _ (dev idx : ℕ) (typed : gpu2device p.table gpu ≡ found dev)
        (indexed : gpu2gpuindex p.table gpu ≡ found idx) where
      Round-filtered :
          (ltb 0 c.device_id && not (c.device_id == dev)) ≡ true
          → Round p c i st (fetch_one p c i st)
      unfolding fetch_one
      Round-filtered h =
          passed (λ g k. ground (arith, at, k.located, k.typed, k.filtered, typed))
            (ground (arith, at, typed, indexed, h)) (ground (arith, at, typed, indexed, h))

      Round-unasked :
          (ltb 0 c.device_id && not (c.device_id == dev)) ≡ false
          → selected c gpu idx ≡ false
          → Round p c i st (fetch_one p c i st)
      unfolding fetch_one
      Round-unasked h u =
          passed
            (λ g k.
              ground (arith, at, k.located, k.indexed, IsAsked-selected c g k.idx k.asked, indexed))
            (ground (arith, at, typed, indexed, h, u, gpus-check_mcm p c i gpu dev st))
            (ground (arith, at, typed, indexed, h, u, gpus-check_mcm p c i gpu dev st))

      Round-asked :
          (ltb 0 c.device_id && not (c.device_id == dev)) ≡ false
          → selected c gpu idx ≡ true
          → Round p c i st (fetch_one p c i st)
      unfolding fetch_one
      Round-asked h a =
          taken gpu
            (record {
              dev = dev;
              idx = idx;
              located = at;
              typed = typed;
              indexed = indexed;
              filtered = ground arith;
              asked = selected-IsAsked c gpu idx a;
            })
            (ground (arith, at, typed, indexed, h, a, gpus-check_mcm p c i gpu dev st))
            (ground (arith, at, typed, indexed, h, a))

      Round-known : Round p c i st (fetch_one p c i st)
      Round-known = elim (Bool-cases (ltb 0 c.device_id && not (c.device_id == dev))) [
        | inl h ↦ Round-filtered h
        | inr h ↦ elim (Bool-cases (selected c gpu idx)) [
          | inl a ↦ Round-asked h a
          | inr u ↦ Round-unasked h u
        ]
      ]

  pub round : Round p c i st (fetch_one p c i st)
  round = elim (Found-cases located_at) [
    | inr h ↦ Round-lost h
    | inl (gpu, at) ↦ elim (Found-cases (gpu2device p.table gpu)) [
      | inr h ↦ Round-untyped gpu at h
      | inl (dev, typed) ↦ elim (Found-cases (gpu2gpuindex p.table gpu)) [
        | inr h ↦ Round-unindexed gpu at dev typed h
        | inl (idx, indexed) ↦ Round-known gpu at dev idx typed indexed
      ]
    ]
  ]
