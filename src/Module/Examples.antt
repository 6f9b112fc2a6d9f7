-- ===== src/Module/Examples.antt =====
-- The module loader at concrete inputs.
use rocm_validation_suite.Prelude.{
  ◌≡◌, refl, ◌⊎◌, true, none, some, List, [], ◌∷◌, Text, codes, find, insert, str_eq, ◌==◌,
  if◌then◌else◌,
}
use rocm_validation_suite.Module.Interfaces.{
  Library, init_interface_method, methods, init_interface, init_interface_0, init_interface_1,
  with_1, with_0, init_interfaces, base_symbols, symbols_0, symbols_1,
}
use rocm_validation_suite.Module.Load.{
  Module, ActionProxy, Host, Modules, find_create_module, complain, or_else, dlclose, open_library,
  enter, start_module, load_file, create_with, action_create, action_destroy, terminate_modules,
}
use rocm_validation_suite.Module.Outcome.{IsStarted, Added, Unchanged}
use rocm_validation_suite.Module.Loaded.{IsLoaded}
use rocm_validation_suite.Module.Requests.{
  Request, load, create, destroy, terminate_all, request, requests, left_open, requests-IsLoaded,
  find_create_outcome,
}

-- The library 7 is whole, the library 8 lacks its second interface.
abbrev libraries : Library
libraries = record {
  has_symbol = λ h s. true;
  has_interface = λ h i. if h == 8 then i == 0 else true;
  module_init = λ h. 0;
  can_create = λ h. true;
  action_destroy = λ h a. 0;
}

abbrev host : Host
host = record {
  library = libraries;
  dlopen = λ path.
      if str_eq path (codes "../lib/rvs/libgpup.so")
      then some 7
      else (if str_eq path (codes "./libpeqt.so") then some 8 else none);
  dlerror = codes "no such file";
  pwd = none;
  modules_lib_dir = codes "/opt/rocm/lib/rvs";
}

abbrev conf : List (Text × Text)
conf = (codes "gpup", codes "libgpup.so") ∷ (codes "peqt", codes "libpeqt.so") ∷ []

abbrev begun : Modules
begun = record { modulemap = []; filemap = conf; errors = []; live = []; actions = 0 }

abbrev gpup : Module
gpup = record { name = codes "gpup"; psolib = 7; ifmap = 0 ∷ 1 ∷ [] }

abbrev gpup_action : ActionProxy
gpup_action = record { name = codes "gpup"; plibaction = 0; ifmap = 0 ∷ 1 ∷ [] }

begun-IsLoaded : IsLoaded host [] begun
begun-IsLoaded = record { started = tt; once = tt; opened = refl }

-- An action, a run that ends, and the module again.
abbrev some_requests : List Request
some_requests =
    create (codes "gpup")
    ∷ load (codes "peqt")
    ∷ create (codes "none")
    ∷ destroy gpup_action
    ∷ terminate_all
    ∷ load (codes "gpup")
    ∷ []

requests-IsLoaded_example :
    IsLoaded host (left_open host some_requests [] begun) (requests host some_requests begun)
requests-IsLoaded_example = requests-IsLoaded host some_requests [] begun begun-IsLoaded

-- The library stays open after `module::terminate`, and is opened again.
opened_twice : (requests host some_requests begun).live ≡ (7 ∷ 7 ∷ [])
unfolding requests request find_create_module action_create action_destroy terminate_modules
    create_with find insert str_eq load_file start_module open_library or_else complain enter
    dlclose init_interfaces with_0 with_1 init_interface_0 init_interface_1 init_interface methods
    init_interface_method base_symbols symbols_0 symbols_1
opened_twice = refl

find_create_outcome_example :
    let r = find_create_module host (codes "peqt") begun in
    ((m : Module) × (r.1 ≡ some m)
      × IsStarted host (codes "peqt") m
      × ((r.0 ≡ begun)
          ⊎ ((find (codes "peqt") begun.modulemap ≡ none) × Added begun r.0 (codes "peqt") m)))
    ⊎ ((r.1 ≡ none) × (find (codes "peqt") begun.modulemap ≡ none) × Unchanged begun r.0)
find_create_outcome_example = find_create_outcome host begun (codes "peqt") tt
