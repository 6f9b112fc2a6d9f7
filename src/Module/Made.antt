-- ===== src/Module/Made.antt =====
-- What `action_create` of rvs/src/rvsmodule.cpp leaves for `action_destroy`.
use mathlib.Core.Path.{subst}
use rocm_validation_suite.Prelude.{
  ◌≡◌, refl, sym, ◌∙◌, ap, inl, inr, none, some, [], ◌∷◌, ◌++◌, Text, Map, find, arith, str_eq_refl,
  Bool-cases, Option-cases,
}
use rocm_validation_suite.Module.Load.{
  Module, ActionProxy, Host, Modules, find_create_module, create_with, action_create,
  action_destroy,
}
use rocm_validation_suite.Module.Outcome.{known, failed, loaded, outcome, insert-absent}

find-append :
    (k : Text) (v : Module) (m : Map Module) → find k m ≡ none → find k (m ++ (k, v) ∷ []) ≡ some v
unfolding find
find-append k v [] e = rw (str_eq_refl k) refl
find-append k v ((j, w) ∷ m) e = ground (arith, find-append k v m)

module _ (host : Host) (name : Text) (st : Modules) where
  find_create_found :
      (m : Module)
      → (find_create_module host name st).1 ≡ some m
      → find name (find_create_module host name st).0.modulemap ≡ some m
  find_create_found m e = elim (outcome host name st) [
    | known {m = m'} there same ↦
        subst (λ r. find name r.0.modulemap ≡ some m) (sym same)
          (there ∙ ap (λ r. r.1) (sym same) ∙ e)
    | failed none_found un absent ↦ absurd cc
    | loaded {m = m'} {file = file} found absent listed opened started added ↦
        ap (find name) (added.entered ∙ insert-absent name m' st.modulemap absent)
        ∙ (find-append name m' st.modulemap absent ∙ (sym found ∙ e))
  ]

  pub create_found :
      (pa : ActionProxy)
      → (action_create host name st).1 ≡ some pa
      → (pa.name ≡ name)
        × ((m : Module) × (find name (action_create host name st).0.modulemap ≡ some m))
  unfolding action_create create_with
  create_found pa e = elim (Option-cases (find_create_module host name st).1) [
    | inl absent ↦ absurd (ground (arith, e, absent))
    | inr (m, found) ↦ elim (Bool-cases (host.library.can_create m.psolib)) [
      | inl fine ↦ (
        ground (arith, e, found, fine),
        (m, ground (arith, found, fine, find_create_found m found)),
      )
      | inr cannot ↦ absurd (ground (arith, e, found, cannot))
    ]
  ]

pub destroy_found :
    (host : Host) (pa : ActionProxy) (st : Modules) (m : Module)
    → find pa.name st.modulemap ≡ some m
    → action_destroy host pa st ≡ (st, some (host.library.action_destroy m.psolib pa.plibaction))
unfolding action_destroy find_create_module
destroy_found host pa st m e = ground (arith, e)
