-- ===== src/Gpu/Select/Chosen.antt =====
-- Which GPUs `fetch_gpu_list` of src/rvs_util.cpp selects.
use mathlib.Core.Path.{subst}
use rocm_validation_suite.Prelude.{
  ℕ, zero, suc, ◌≡◌, refl, ◌≤◌, ◌<◌, ◌↔◌, inl, inr, true, false, none, some, List, [], ◌∷◌, arith,
  ◌==◌, if◌then◌else◌, Bool-cases, is_nil, not, sym, ap, ◌∙◌,
}
use rocm_validation_suite.Gpu.Table.{domlocation2gpu}
use rocm_validation_suite.Gpu.Table.Correct.{IsTable, lookups_in_bounds}
use rocm_validation_suite.Gpu.Select.{
  Platform, Choice, Fetch, insert_gpu, check_mcm, fetch_one, fetch_loop, fetch_gpu_list,
}
use rocm_validation_suite.Gpu.Select.Round.{gpu_at, IsChosen, passed, taken, round}

gpu_at-insert :
    (i g j : ℕ) (m : List (ℕ × ℕ))
    → gpu_at i m ≡ none
    → gpu_at j (insert_gpu i g m) ≡ (if i == j then some g else gpu_at j m)
unfolding insert_gpu
gpu_at-insert i g j [] h = refl
gpu_at-insert i g j ((k, x) ∷ m) h = ground (arith, gpu_at-insert i g j m)

insert-full : (i g : ℕ) (m : List (ℕ × ℕ)) → is_nil (insert_gpu i g m) ≡ false
unfolding insert_gpu
insert-full i g [] = refl
insert-full i g ((k, x) ∷ m) = ground arith

chosen_unique :
    {p : Platform} {c : Choice} {i g g' : ℕ} → IsChosen p c i g → IsChosen p c i g' → g ≡ g'
chosen_unique k k' = ground (arith, k.located, k'.located)

record Holds (p : Platform) (c : Choice) (n : ℕ) (st : Fetch) : Type 0 where
  fresh : (i : ℕ) → n ≤ i → gpu_at i st.gpus ≡ none
  sound : (i g : ℕ) → gpu_at i st.gpus ≡ some g → (i < n) × IsChosen p c i g
  complete : (i g : ℕ) → i < n → IsChosen p c i g → gpu_at i st.gpus ≡ some g
  flag : st.amd_gpus_found ≡ not (is_nil st.gpus)

module _ (p : Platform) (c : Choice) (n : ℕ) (st st' : Fetch) (h : Holds p c n st) where
  Holds-passed :
      ((gpu : ℕ) → ¬ (IsChosen p c n gpu))
      → st'.gpus ≡ st.gpus
      → st'.amd_gpus_found ≡ st.amd_gpus_found
      → Holds p c (suc n) st'
  Holds-passed no_gpu same flag_same = record {
    fresh = λ i le. rw same (h.fresh i (omega arith));
    sound = λ i g e. let (lt, k) = h.sound i g (rw same at e) in (omega arith, k);
    complete = λ i g lt k. elim (Bool-cases (i == n)) [
      | inl here ↦ absurd (no_gpu g (subst (λ j. IsChosen p c j g) {x = i} (ground arith) k))
      | inr before ↦ rw same (h.complete i g (ground arith) k)
    ];
    flag = rw same (flag_same ∙ h.flag);
  }

  Holds-taken :
      (gpu : ℕ)
      → IsChosen p c n gpu
      → st'.gpus ≡ insert_gpu n gpu st.gpus
      → st'.amd_gpus_found ≡ true
      → Holds p c (suc n) st'
  Holds-taken gpu k same flag_set =
      let at : (j : ℕ) → gpu_at j st'.gpus ≡ (if n == j then some gpu else gpu_at j st.gpus) =
        λ j. rw same (gpu_at-insert n gpu j st.gpus (h.fresh n (omega arith))) in
      record {
        fresh = λ i le. ground (arith, at i, h.fresh i (omega arith));
        sound = λ i g e. elim (Bool-cases (n == i)) [
          | inl here ↦ (
            ground arith,
            subst (λ j. IsChosen p c j g) {x = n} (ground arith)
                (subst (λ x. IsChosen p c n x) {x = gpu} (ground (arith, at i)) k),
          )
          | inr before ↦ let (lt, old) = h.sound i g (ground (arith, at i)) in (omega arith, old)
        ];
        complete = λ i g lt k'. elim (Bool-cases (n == i)) [
          | inl here ↦ ground (
            arith,
            at i,
            chosen_unique k (subst (λ j. IsChosen p c j g) {x = i} {y = n} (ground arith) k'),
          )
          | inr before ↦ ground (arith, at i, h.complete i g (ground arith) k')
        ];
        flag = rw same (ground (arith, flag_set, insert-full n gpu st.gpus));
      }

Holds-loop :
    (p : Platform) (c : Choice) (n : ℕ) (st : Fetch)
    → st.gpus ≡ []
    → st.amd_gpus_found ≡ false
    → Holds p c n (fetch_loop p c n st)
unfolding fetch_loop
Holds-loop p c zero st e f = record {
  fresh = λ i le. rw e;
  sound = λ i g h. absurd (ground (arith, ap (gpu_at i) e));
  complete = λ i g lt k. absurd (omega arith);
  flag = rw e f;
}
Holds-loop p c (suc n) st e f =
    let old = Holds-loop p c n st e f in
    let before = fetch_loop p c n st in
    elim (round p c n before) [
      | passed no_gpu same flag ↦
          Holds-passed p c n before (fetch_one p c n before) old no_gpu same flag
      | taken gpu k same flag ↦
          Holds-taken p c n before (fetch_one p c n before) old gpu k same flag
    ]

abbrev begun : Fetch
begun = record {
  gpus = [];
  amd_gpus_found = false;
  amd_mcm_gpu_found = false;
  mcm_type = [];
  notes = [];
  overrun = false;
}

-- The message at the end leaves the rest of the state.
fetch_end :
    (p : Platform) (c : Choice) (n : ℕ)
    → let st = fetch_gpu_list p c n [] in
      let end = fetch_loop p c n begun in
      (st.gpus ≡ end.gpus) × (st.amd_gpus_found ≡ end.amd_gpus_found) × (st.overrun ≡ end.overrun)
unfolding fetch_gpu_list
fetch_end p c n = ground arith

-- From an empty map `fetch_gpu_list` maps a device index to a GPU id exactly when the index is
-- below the number of devices and the device is chosen: it is in the table, passes the filter on
-- the device id, and is asked for.
pub fetch_selects :
    (p : Platform) (c : Choice) (n i gpu : ℕ)
    → (gpu_at i (fetch_gpu_list p c n []).gpus ≡ some gpu) ↔ ((i < n) × IsChosen p c i gpu)
fetch_selects p c n i gpu =
    let h = Holds-loop p c n begun refl refl in
    let same = (fetch_end p c n).0 in
    (
      λ e. h.sound i gpu (ap (gpu_at i) (sym same) ∙ e),
      λ k. ap (gpu_at i) same ∙ h.complete i gpu k.0 k.1,
    )

-- `fetch_gpu_list` returns true exactly when the map that it built from an empty one is not empty.
pub fetch_reports :
    (p : Platform) (c : Choice) (n : ℕ)
    → (fetch_gpu_list p c n []).amd_gpus_found ≡ not (is_nil (fetch_gpu_list p c n []).gpus)
fetch_reports p c n =
    let (same, flag, _) = fetch_end p c n in
    flag ∙ (Holds-loop p c n begun refl refl).flag ∙ ap (λ m. not (is_nil m)) (sym same)

overrun-fetch_one :
    (p : Platform) (c : Choice) (i : ℕ) (st : Fetch)
    → IsTable p.table
    → (fetch_one p c i st).overrun ≡ st.overrun
unfolding fetch_one check_mcm domlocation2gpu
overrun-fetch_one p c i st w = grind (
  arith,
  λ (g : ℕ). (lookups_in_bounds p.table g w).5,
  λ (g : ℕ). (lookups_in_bounds p.table g w).6,
)

overrun-fetch_loop :
    (p : Platform) (c : Choice) (n : ℕ) (st : Fetch)
    → IsTable p.table
    → (fetch_loop p c n st).overrun ≡ st.overrun
unfolding fetch_loop
overrun-fetch_loop p c zero st w = refl
overrun-fetch_loop p c (suc n) st w =
    overrun-fetch_one p c n (fetch_loop p c n st) w ∙ overrun-fetch_loop p c n st w

-- With vectors of one length in the table `fetch_gpu_list` reads none past its end.
pub fetch_in_bounds :
    (p : Platform) (c : Choice) (n : ℕ)
    → IsTable p.table
    → (fetch_gpu_list p c n []).overrun ≡ false
fetch_in_bounds p c n w = (fetch_end p c n).2 ∙ overrun-fetch_loop p c n begun w
