-- ===== src/Module/Outcome.antt =====
-- The three ways `find_create_module` of rvs/src/rvsmodule.cpp ends.
use mathlib.Core.Path.{subst}
use rocm_validation_suite.Prelude.{
  ℕ, ◌≡◌, refl, inl, inr, Option, none, some, [], ◌∷◌, ◌++◌, Text, Map, find, insert, arith, ◌==◌,
  Bool-cases, Option-cases,
}
use rocm_validation_suite.Module.Interfaces.{Built, init_interfaces}
use rocm_validation_suite.Module.Load.{
  Module, Host, Modules, open_library, dlclose, enter, start_module, load_file, find_create_module,
}
use rocm_validation_suite.Module.Ready.{IsReady, init_interfaces_zero}

pub insert-absent :
    (k : Text) (v : Module) (m : Map Module) → find k m ≡ none → insert k v m ≡ m ++ (k, v) ∷ []
unfolding insert find
insert-absent k v [] e = refl
insert-absent k v ((j, w) ∷ m) e = ground (arith, insert-absent k v m)

-- A module with both interfaces whose library has every symbol and was initialised.
pub record IsStarted (host : Host) (name : Text) (m : Module) : Type 0 where
  pub named : m.name ≡ name
  pub ready : IsReady host.library m.psolib
  pub both : m.ifmap ≡ 0 ∷ 1 ∷ []
  pub initialised : host.library.module_init m.psolib ≡ 0

pub record Added (st st' : Modules) (name : Text) (m : Module) : Type 0 where
  pub entered : st'.modulemap ≡ insert name m st.modulemap
  pub opened : st'.live ≡ m.psolib ∷ st.live
  pub same_files : st'.filemap ≡ st.filemap

pub record Unchanged (st st' : Modules) : Type 0 where
  pub same_modules : st'.modulemap ≡ st.modulemap
  pub same_live : st'.live ≡ st.live
  pub same_files : st'.filemap ≡ st.filemap

pub data Outcome (host : Host) (name : Text) (st : Modules) (r : Modules × Option Module)
    : Type 0 where
  known : {m : Module} → find name st.modulemap ≡ some m → r ≡ (st, some m) → Outcome host name st r
  failed : r.1 ≡ none → Unchanged st r.0 → find name st.modulemap ≡ none → Outcome host name st r
  loaded :
      {m : Module} {file : Text}
      → r.1 ≡ some m
      → find name st.modulemap ≡ none
      → find name st.filemap ≡ some file
      → open_library host file ≡ some m.psolib
      → IsStarted host name m
      → Added st r.0 name m
      → Outcome host name st r

module _ (host : Host) (name file : Text) (psolib : ℕ) (st : Modules) where
  start_module_outcome :
      find name st.modulemap ≡ none
      → find name st.filemap ≡ some file
      → open_library host file ≡ some psolib
      → Outcome host name st
          (start_module host name file psolib (record st { live = psolib ∷ st.live }))
  unfolding start_module enter dlclose
  start_module_outcome absent listed opened =
      let b : Built = record { ifmap = []; errors = st.errors } in
      let r = init_interfaces host.library psolib b in
      elim (Bool-cases (r.1 == 0)) [
        | inl fine ↦ elim (Bool-cases (host.library.module_init psolib == 0)) [
          | inl begun ↦
              let (ready, both) =
                init_interfaces_zero host.library psolib b (ground (arith, fine)) in
              loaded {m = record { name = name; psolib = psolib; ifmap = r.0.ifmap }}
                (ground (arith, fine, begun)) absent listed opened
                (record {
                  named = refl;
                  ready = ready;
                  both = both;
                  initialised = ground (arith, begun);
                })
                (record {
                  entered = ground (arith, fine, begun);
                  opened = ground (arith, fine, begun);
                  same_files = ground (arith, fine, begun);
                })
          | inr refused ↦
              failed (ground (arith, fine, refused))
                (record {
                  same_modules = ground (arith, fine, refused);
                  same_live = ground (arith, fine, refused);
                  same_files = ground (arith, fine, refused);
                })
                absent
        ]
        | inr bad ↦
            failed (ground (arith, bad))
              (record {
                same_modules = ground (arith, bad);
                same_live = ground (arith, bad);
                same_files = ground (arith, bad);
              })
              absent
      ]

module _ (host : Host) (name : Text) (st : Modules) where
  load_file_outcome :
      (file : Text)
      → find name st.modulemap ≡ none
      → find name st.filemap ≡ some file
      → Outcome host name st (load_file host name file st)
  unfolding load_file
  load_file_outcome file absent listed = elim (Option-cases (open_library host file)) [
    | inl closed ↦
        failed (ground (arith, closed))
          (record {
            same_modules = ground (arith, closed);
            same_live = ground (arith, closed);
            same_files = ground (arith, closed);
          })
          absent
    | inr (psolib, opened) ↦
        subst (λ r. Outcome host name st r)
          {x = start_module host name file psolib (record st { live = psolib ∷ st.live })}
          (ground (arith, opened))
          (start_module_outcome host name file psolib st absent listed opened)
  ]

  pub outcome : Outcome host name st (find_create_module host name st)
  unfolding find_create_module
  outcome = elim (Option-cases (find name st.modulemap)) [
    | inr (m, found) ↦ known found (ground (arith, found))
    | inl absent ↦ elim (Option-cases (find name st.filemap)) [
      | inl unlisted ↦
          failed (ground (arith, absent, unlisted))
            (record {
              same_modules = ground (arith, absent, unlisted);
              same_live = ground (arith, absent, unlisted);
              same_files = ground (arith, absent, unlisted);
            })
            absent
      | inr (file, listed) ↦
          subst (λ r. Outcome host name st r) {x = load_file host name file st}
            (ground (arith, absent, listed)) (load_file_outcome file absent listed)
    ]
  ]
