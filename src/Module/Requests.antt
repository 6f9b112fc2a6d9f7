-- ===== src/Module/Requests.antt =====
-- What the requests to the module loader return, and what they leave: rvs/src/rvsmodule.cpp.
use mathlib.Core.Path.{subst}
use rocm_validation_suite.Prelude.{
  ℕ, ◌≡◌, refl, ap, ◌∙◌, sym, ◌⊎◌, true, Option, none, some, List, [], ◌∷◌, Text, Map, find, str_eq,
  str_eq_iff, All, arith, Bool-cases, Option-cases, inl, inr,
}
use rocm_validation_suite.Module.Load.{
  Module, ActionProxy, Host, Modules, find_create_module, create_with, action_create,
  action_destroy, terminate_modules,
}
use rocm_validation_suite.Module.Outcome.{
  IsStarted, Added, Unchanged, known, failed, loaded, outcome,
}
use rocm_validation_suite.Module.Loaded.{
  IsLoaded, Unchanged-IsLoaded, find-insert_self, find_create-IsLoaded,
}

-- The requests that the executor makes of the loader: `find_create_module`, `action_create`,
-- `action_destroy`, and `module::terminate` after each of its runs.
pub data Request : Type 0 where
  load : Text → Request
  create : Text → Request
  destroy : ActionProxy → Request
  terminate_all : Request

module _ (host : Host) where
  unfoldable pub request : Request → Modules → Modules
  request (load name) st = (find_create_module host name st).0
  request (create name) st = (action_create host name st).0
  request (destroy pa) st = (action_destroy host pa st).0
  request terminate_all st = (terminate_modules st).0

  unfoldable pub requests : List Request → Modules → Modules
  requests [] st = st
  requests (r ∷ rs) st = requests rs (request r st)

  -- The libraries that are open when `module::terminate` is called, which closes none of them, are
  -- left open; any other request leaves what was left before.
  abbrev pub left_by : Request → List ℕ → Modules → List ℕ
  left_by (load name) left st = left
  left_by (create name) left st = left
  left_by (destroy pa) left st = left
  left_by terminate_all left st = st.live

  -- The libraries that were open when `module::terminate` was called last; before that, some others.
  abbrev pub left_open : List Request → List ℕ → Modules → List ℕ
  left_open [] left st = left
  left_open (r ∷ rs) left st = left_open rs (left_by r left st) (request r st)

  create_with_same :
      (st : Modules) (name : Text) (o : Option Module) → Unchanged st (create_with host name st o).0
  unfolding create_with
  create_with_same st name none = record {
    same_modules = refl;
    same_live = refl;
    same_files = refl;
  }
  create_with_same st name (some m) = record {
    same_modules = ground arith;
    same_live = ground arith;
    same_files = ground arith;
  }

  -- The state after a request is that after the load it begins with, but for errors and actions.
  create_same :
      (st : Modules) (name : Text)
      → Unchanged (find_create_module host name st).0 (action_create host name st).0
  unfolding action_create
  create_same st name =
      create_with_same (find_create_module host name st).0 name (find_create_module host name st).1

  destroy_same :
      (st : Modules) (pa : ActionProxy)
      → (action_destroy host pa st).0 ≡ (find_create_module host pa.name st).0
  unfolding action_destroy
  destroy_same st pa = elim (Option-cases (find_create_module host pa.name st).1) [
    | inl missing ↦ ground (arith, missing)
    | inr (m, found) ↦ ground (arith, found)
  ]

  create-IsLoaded :
      (name : Text) (left : List ℕ) (st : Modules)
      → IsLoaded host left st
      → IsLoaded host left (action_create host name st).0
  create-IsLoaded name left st h =
      Unchanged-IsLoaded host left (find_create_module host name st).0
        (find_create-IsLoaded host left st h name) (action_create host name st).0
        (create_same st name)

  request-IsLoaded :
      (r : Request) (left : List ℕ) (st : Modules)
      → IsLoaded host left st
      → IsLoaded host (left_by r left st) (request r st)
  unfolding request terminate_modules
  request-IsLoaded (load name) left st h = find_create-IsLoaded host left st h name
  request-IsLoaded (create name) left st h = create-IsLoaded name left st h
  request-IsLoaded (destroy pa) left st h =
      rw (destroy_same st pa) (find_create-IsLoaded host left st h pa.name)
  request-IsLoaded terminate_all left st h = record { started = tt; once = tt; opened = refl }

  -- Whatever the host answers, after any requests, `module::terminate` among them, every module in
  -- the map is started and has both interfaces, the names are distinct, and the open libraries are
  -- those of the modules in the map, the last one first, before those that were open when
  -- `module::terminate` was called last, none of which was closed; this if it held before, with any
  -- libraries left open then.
  pub requests-IsLoaded :
      (rs : List Request) (left : List ℕ) (st : Modules)
      → IsLoaded host left st
      → IsLoaded host (left_open rs left st) (requests rs st)
  unfolding requests
  requests-IsLoaded [] left st h = h
  requests-IsLoaded (r ∷ rs) left st h =
      requests-IsLoaded rs (left_by r left st) (request r st) (request-IsLoaded r left st h)

  known_module :
      (st : Modules) (name : Text) (m : Module)
      → find name st.modulemap ≡ some m
      → find_create_module host name st ≡ (st, some m)
  unfolding find_create_module
  known_module st name m found = ground (arith, found)

  found_after :
      (st : Modules) (name : Text) (m : Module)
      → (find_create_module host name st).1 ≡ some m
      → find name (find_create_module host name st).0.modulemap ≡ some m
  found_after st name m got = elim (outcome host name st) [
    | known {m = m'} found same ↦
        ap (λ r. find name r.0.modulemap) same ∙ found ∙ sym (ap (λ r. r.1) same) ∙ got
    | failed no_module u absent ↦ absurd (ground (arith, no_module, got))
    | loaded {m = m'} {file} got' absent listed opened s a ↦
        ap (find name) a.entered ∙ find-insert_self name m' st.modulemap absent ∙ sym got' ∙ got
  ]

  -- After a load that returned a module, the name is bound to that module, and a second load
  -- returns the same module and leaves the state as it is.
  pub find_create_again :
      (st : Modules) (name : Text) (m : Module)
      → (find_create_module host name st).1 ≡ some m
      → (find name (find_create_module host name st).0.modulemap ≡ some m)
        × (find_create_module host name (find_create_module host name st).0
            ≡ ((find_create_module host name st).0, some m))
  find_create_again st name m got = (
    found_after st name m got,
    known_module (find_create_module host name st).0 name m (found_after st name m got),
  )

  IsStarted-at :
      (name : Text) (m : Module) (mods : Map Module)
      → All (λ e. IsStarted host e.0 e.1) mods
      → find name mods ≡ some m
      → IsStarted host name m
  unfolding find
  IsStarted-at name m [] h found = absurd (ground (arith, found))
  IsStarted-at name m ((k, m') ∷ mods) h found = elim (Bool-cases (str_eq k name)) [
    | inl here ↦
        subst (λ n. IsStarted host n m) {x = k} (ground (arith, here, str_eq_iff k name))
          (subst (λ x. IsStarted host k x) {x = m'} (ground (arith, found, here)) h.0)
    | inr later ↦ IsStarted-at name m mods h.1 (ground (arith, found, later))
  ]

  -- From a state where the modules in the map are started, a load returns a started module, which
  -- was in the map (then nothing changes) or is new (then its name is bound to it and its library
  -- is opened); or it returns null, and the modules, the open libraries and the file names stay.
  pub find_create_outcome :
      (st : Modules) (name : Text)
      → All (λ e. IsStarted host e.0 e.1) st.modulemap
      → let r = find_create_module host name st in
        ((m : Module) × (r.1 ≡ some m)
          × IsStarted host name m
          × ((r.0 ≡ st) ⊎ ((find name st.modulemap ≡ none) × Added st r.0 name m)))
        ⊎ ((r.1 ≡ none) × (find name st.modulemap ≡ none) × Unchanged st r.0)
  find_create_outcome st name h = elim (outcome host name st) [
    | known {m} found same ↦
        inl (
          m,
          ap (λ r. r.1) same,
          IsStarted-at name m st.modulemap h found,
          inl (ap (λ r. r.0) same),
        )
    | failed no_module u absent ↦ inr (no_module, absent, u)
    | loaded {m} {file} got absent listed opened s a ↦ inl (m, got, s, inr (absent, a))
  ]

  create_with-some :
      (st : Modules) (name : Text) (o : Option Module) (pa : ActionProxy)
      → (create_with host name st o).1 ≡ some pa
      → (m : Module) × (o ≡ some m)
        × (host.library.can_create m.psolib ≡ true)
        × (pa ≡ record { name = name; plibaction = st.actions; ifmap = m.ifmap })
  unfolding create_with
  create_with-some st name none pa e = absurd (ground (arith, e))
  create_with-some st name (some m) pa e = (m, refl, ground (arith, e), ground (arith, e))

  destroy_known :
      (st : Modules) (pa : ActionProxy) (m : Module)
      → find pa.name st.modulemap ≡ some m
      → action_destroy host pa st ≡ (st, some (host.library.action_destroy m.psolib pa.plibaction))
  unfolding action_destroy
  destroy_known st pa m found = ground (arith, known_module st pa.name m found)

  -- An action that was created carries both interfaces, and its name is bound to a started module
  -- that can create actions. To destroy it then calls the library of that module with the
  -- library's own object, returns the status of that call and leaves the modules as they are.
  pub action_destroy-action_create :
      (left : List ℕ) (st : Modules) (name : Text) (pa : ActionProxy)
      → IsLoaded host left st
      → (action_create host name st).1 ≡ some pa
      → let st' = (action_create host name st).0 in
        (m : Module) × (find name st'.modulemap ≡ some m)
        × IsStarted host name m
        × (host.library.can_create m.psolib ≡ true)
        × (pa.name ≡ name)
        × (pa.ifmap ≡ 0 ∷ 1 ∷ [])
        × (action_destroy host pa st'
            ≡ (st', some (host.library.action_destroy m.psolib pa.plibaction)))
  unfolding action_create request
  action_destroy-action_create left st name pa h e =
      let r = find_create_module host name st in
      let (m, got, can, same) = create_with-some r.0 name r.1 pa e in
      let found : find name (action_create host name st).0.modulemap ≡ some m =
        ap (find name) (create_same st name).same_modules ∙ found_after st name m got in
      let s : IsStarted host name m =
        IsStarted-at name m (action_create host name st).0.modulemap
          (create-IsLoaded name left st h).started found in
      (
        m,
        found,
        s,
        can,
        ap (λ x. x.name) same,
        ap (λ x. x.ifmap) same ∙ s.both,
        destroy_known (action_create host name st).0 pa m (
            ap (λ x. find x (action_create host name st).0.modulemap) (ap (λ x. x.name) same)
            ∙ found),
      )
