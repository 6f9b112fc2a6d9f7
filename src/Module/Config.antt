-- ===== src/Module/Config.antt =====
-- The file that names the modules' libraries: `initialize` of rvs/src/rvsmodule.cpp.
use rocm_validation_suite.Prelude.{
  ◌≡◌, refl, ◌⊎◌, ◌≢◌, if◌then◌else◌, false, ◌∙◌, ap, true, Option, none, some, List, [], ◌∷◌, Text,
  codes, Map, find, insert, str_eq, str_eq_iff, arith, Bool-cases, inl, inr,
}
use rocm_validation_suite.Module.Load.{Modules, initialize, config_pairs, load_pairs, or_else}

find-insert :
    (k j : Text) (v : Text) (m : Map Text)
    → find j (insert k v m) ≡ or_else (find j m) (if str_eq k j then some v else none)
unfolding find insert or_else
find-insert k j v [] = refl
find-insert k j v ((i, w) ∷ m) =
    ground (arith, str_eq_iff k j, str_eq_iff i k, str_eq_iff i j, find-insert k j v m)

find-load_pairs :
    (ps : List (Text × Text)) (m : Map Text) (j : Text)
    → find j (load_pairs ps m) ≡ or_else (find j m) (find j ps)
unfolding load_pairs find or_else
find-load_pairs [] m j = ground arith
find-load_pairs ((k, v) ∷ ps) m j =
    ground (arith, find-load_pairs ps (insert k v m) j, find-insert k j v m)

abbrev pub version_1 : List (Text × Text) → List (Text × Text)
version_1 rest = (codes "version", codes "1") ∷ rest

same_pair :
    (k v : Text) (rest : List (Text × Text))
    → str_eq k (codes "version") ≡ true
    → str_eq v (codes "1") ≡ true
    → some ((k, v) ∷ rest) ≡ some (version_1 rest)
same_pair k v rest e f =
    ap (λ x. some ((x, v) ∷ rest)) ((str_eq_iff k (codes "version")).0 e)
    ∙ ap (λ x. some ((codes "version", x) ∷ rest)) ((str_eq_iff v (codes "1")).0 f)

abbrev first : Option (List (Text × Text)) → Text × Text
first none = ([], [])
first (some []) = ([], [])
first (some (kv ∷ rest)) = kv

-- Either the file starts with `version: 1`, the status is 0 and each name is bound to what it was
-- bound to before, or else to its first entry in the rest of the file; or the file does not start
-- so, the status is not 0 and the names stay.
pub initialize_outcome :
    (p : Text) (file : Option (List (Text × Text))) (st : Modules)
    → let r = initialize p file st in
      ((rest : List (Text × Text)) × (file ≡ some (version_1 rest))
        × (r.1 ≡ true)
        × ((j : Text) → find j r.0.filemap ≡ or_else (find j st.filemap) (find j rest)))
      ⊎ (((rest : List (Text × Text)) → file ≢ some (version_1 rest))
          × (r.1 ≡ false)
          × (r.0.filemap ≡ st.filemap))
unfolding initialize config_pairs
initialize_outcome p none st = inr (λ rest e. absurd (ground (arith, e)), refl, refl)
initialize_outcome p (some []) st = inr (λ rest e. absurd (ground (arith, e)), refl, refl)
initialize_outcome p (some ((k, v) ∷ rest)) st = elim (Bool-cases (str_eq k (codes "version"))) [
  | inl named ↦ elim (Bool-cases (str_eq v (codes "1"))) [
    | inl one ↦ inl (
      rest,
      same_pair k v rest named one,
      rw (named, one) refl,
      λ j. rw (named, one) (find-load_pairs rest st.filemap j),
    )
    | inr other ↦ inr (
      λ rest' e.
          absurd (ground (arith, other, (str_eq_iff v (codes "1")).1 (ap (λ o. (first o).1) e))),
      rw (named, other) refl,
      rw (named, other) refl,
    )
  ]
  | inr unnamed ↦ inr (
    λ rest' e.
        absurd
          (ground (arith, unnamed, (str_eq_iff k (codes "version")).1 (ap (λ o. (first o).0) e))),
    rw unnamed refl,
    rw unnamed refl,
  )
]
