-- ===== src/Module/Load.antt =====
-- `rvs::module` of rvs/src/rvsmodule.cpp: the maps of modules and of their files, and the life of
-- modules and actions. `dlopen` is a parameter, and so is where the libraries of an installation
-- lie; `live` lists the handles that were opened and not closed, the last one first.
use rocm_validation_suite.Prelude.{
  ℕ, suc, Bool, true, false, Option, none, some, List, [], ◌∷◌, ◌++◌, Text, codes, Map, find,
  insert, str_eq, ◌==◌, if◌then◌else◌, map,
}
use rocm_validation_suite.Module.Interfaces.{Library, init_interfaces}

pub record Module : Type 0 where
  pub name : Text
  pub psolib : ℕ
  pub ifmap : List ℕ

-- The proxy `rvs::action`, with the interfaces cloned from its module.
pub record ActionProxy : Type 0 where
  pub name : Text
  pub plibaction : ℕ
  pub ifmap : List ℕ

pub record Host : Type 0 where
  pub library : Library
  pub dlopen : Text → Option ℕ
  pub dlerror : Text
  pub pwd : Option Text
  pub modules_lib_dir : Text

pub record Modules : Type 0 where
  pub modulemap : Map Module
  pub filemap : Map Text
  pub errors : List Text
  pub live : List ℕ
  pub actions : ℕ

unfoldable pub complain : Text → Modules → Modules
complain msg st = record st { errors = st.errors ++ msg ∷ [] }

unfoldable pub load_pairs : List (Text × Text) → Map Text → Map Text
load_pairs [] m = m
load_pairs ((k, v) ∷ rest) m = load_pairs rest (insert k v m)

unfoldable pub config_pairs : List (Text × Text) → Modules → Modules × Bool
unfolding complain load_pairs
config_pairs [] st =
    (complain (codes "unsupported file format. Version string not found.") st, false)
config_pairs ((key, value) ∷ rest) st =
    if str_eq key (codes "version")
    then if str_eq value (codes "1")
      then (record st { filemap = load_pairs rest st.filemap }, true)
      else (complain (codes "file version is " ++ (value ++ codes ", expected 1")) st, false)
    else (complain (codes "unsupported file format. Version string not found.") st, false)

-- The pairs that yaml-cpp reads from the file, `none` if there is no file; true is status 0.
unfoldable pub initialize : Text → Option (List (Text × Text)) → Modules → Modules × Bool
unfolding complain config_pairs
initialize p_config file st = elim file [
  | none ↦ (complain (codes "file does not exist: " ++ p_config) st, false)
  | some pairs ↦ config_pairs pairs st
]

unfoldable pub or_else : {A : Type 0} → Option A → Option A → Option A
or_else none o = o
or_else (some a) o = some a

or_empty : Option Text → Text → Text
or_empty none t = t
or_empty (some s) t = s

abbrev pub remove_handle : ℕ → List ℕ → List ℕ
remove_handle h [] = []
remove_handle h (g ∷ rest) = if g == h then rest else g ∷ remove_handle h rest

-- The last opening of the handle ends.
unfoldable pub dlclose : ℕ → Modules → Modules
dlclose h st = record st { live = remove_handle h st.live }

-- The three places, in order.
unfoldable pub open_library : Host → Text → Option ℕ
unfolding or_else or_empty
open_library host file =
    or_else (host.dlopen (or_empty host.pwd [] ++ (codes "../lib/rvs/" ++ file))) (
      or_else (host.dlopen (or_empty host.pwd (codes "./") ++ file))
        (host.dlopen (host.modules_lib_dir ++ (codes "/" ++ file))))

module _ (host : Host) where
  -- `rvs_module_init`, and the entry in the map; on an error the library is closed again.
  unfoldable pub enter : Text → Text → ℕ → List ℕ → Modules → Modules × Option Module
  unfolding complain dlclose
  enter name file psolib ifmap st =
      if host.library.module_init psolib == 0
      then (
        record st {
          modulemap =
              insert name (record { name = name; psolib = psolib; ifmap = ifmap }) st.modulemap;
        },
        some (record { name = name; psolib = psolib; ifmap = ifmap }),
      )
      else (
        dlclose psolib (complain (codes "could not initialize '" ++ (file ++ codes "'")) st),
        none,
      )

  -- A library that is open gets its interfaces first.
  unfoldable pub start_module : Text → Text → ℕ → Modules → Modules × Option Module
  unfolding complain enter dlclose
  start_module name file psolib st =
      let r = init_interfaces host.library psolib (record { ifmap = []; errors = st.errors }) in
      if r.1 == 0 then enter name file psolib r.0.ifmap (record st { errors = r.0.errors }) else (
        dlclose psolib (
            complain (codes "could not init interfaces for '" ++ (file ++ codes "'"))
              (record st { errors = r.0.errors })),
        none,
      )

  unfoldable pub load_file : Text → Text → Modules → Modules × Option Module
  unfolding start_module open_library complain
  load_file name file st = elim (open_library host file) [
    | none ↦ (
      complain (codes "reason: '" ++ (host.dlerror ++ codes "'")) (
          complain
            (codes "could not load .so '"
              ++ (host.modules_lib_dir ++ (codes "/" ++ (file ++ codes "'"))))
            st),
      none,
    )
    | some psolib ↦ start_module name file psolib (record st { live = psolib ∷ st.live })
  ]

  unfoldable pub find_create_module : Text → Modules → Modules × Option Module
  unfolding load_file complain
  find_create_module name st = elim (find name st.modulemap) [
    | some m ↦ (st, some m)
    | none ↦ elim (find name st.filemap) [
      | none ↦
          (complain (codes "module '" ++ (name ++ codes "' not found in configuration.")) st, none)
      | some file ↦ load_file name file st
    ]
  ]

  unfoldable pub create_with : Text → Modules → Option Module → Modules × Option ActionProxy
  unfolding complain
  create_with name st none =
      (complain (codes "module '" ++ (name ++ codes "' not available.")) st, none)
  create_with name st (some m) =
      if host.library.can_create m.psolib
      then (
        record st { actions = suc st.actions },
        some (record { name = name; plibaction = st.actions; ifmap = m.ifmap }),
      )
      else (
        complain (codes "module '" ++ (name ++ codes "' could not create lib action.")) st,
        none,
      )

  unfoldable pub action_create : Text → Modules → Modules × Option ActionProxy
  unfolding create_with
  action_create name st = let r = find_create_module name st in create_with name r.0 r.1

  -- `none` is the status -1.
  unfoldable pub action_destroy : ActionProxy → Modules → Modules × Option ℕ
  action_destroy pa st =
      let r = find_create_module pa.name st in
      elim r.1 [
        | none ↦ (r.0, none)
        | some m ↦ (r.0, some (host.library.action_destroy m.psolib pa.plibaction))
      ]

-- `module::terminate`: the map is emptied, but no library is closed. The libraries of the modules
-- are told first, in the order of the map.
unfoldable pub terminate_modules : Modules → Modules × List ℕ
terminate_modules st = (record st { modulemap = [] }, map (λ e. e.1.psolib) st.modulemap)
