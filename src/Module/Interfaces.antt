-- ===== src/Module/Interfaces.antt =====
-- `init_interfaces` of rvs/src/rvsmodule.cpp: the symbols that a module's library must have. A
-- status -n is the number n here. What `dlsym` and the library answer is a parameter.
use rocm_validation_suite.Prelude.{
  ℕ, ◌+◌, Bool, List, [], ◌∷◌, ◌++◌, Text, codes, ◌==◌, if◌then◌else◌,
}

-- A library handle, a number for a pointer that is not null, has symbols and interfaces;
-- `rvs_module_init` returns a status.
pub record Library : Type 0 where
  pub has_symbol : ℕ → Text → Bool
  pub has_interface : ℕ → ℕ → Bool
  pub module_init : ℕ → ℕ
  pub can_create : ℕ → Bool
  pub action_destroy : ℕ → ℕ → ℕ

-- What the initialisation of a module builds: the interfaces in `ifmap`, with the errors printed.
pub record Built : Type 0 where
  pub ifmap : List ℕ
  pub errors : List Text

unfoldable pub symbols_0 : List Text
symbols_0 =
    codes "rvs_module_get_description"
    ∷ codes "rvs_module_get_config"
    ∷ codes "rvs_module_get_output"
    ∷ []

unfoldable pub symbols_1 : List Text
symbols_1 =
    codes "rvs_module_action_property_set"
    ∷ codes "rvs_module_action_run"
    ∷ codes "rvs_module_action_callback_set"
    ∷ []

unfoldable pub base_symbols : List Text
base_symbols =
    codes "rvs_module_init"
    ∷ codes "rvs_module_terminate"
    ∷ codes "rvs_module_action_create"
    ∷ codes "rvs_module_action_destroy"
    ∷ codes "rvs_module_has_interface"
    ∷ []

module _ (lib : Library) (psolib : ℕ) where
  unfoldable pub init_interface_method : Text → Built → Built × ℕ
  init_interface_method name b = if lib.has_symbol psolib name then (b, 0) else (
    record b {
      errors = b.errors ++ (codes "could not find .so method '" ++ (name ++ codes "'")) ∷ [];
    },
    1,
  )

  -- A row of such calls, each of which lowers `sts` if it fails.
  unfoldable pub methods : List Text → Built × ℕ → Built × ℕ
  unfolding init_interface_method
  methods [] r = r
  methods (name ∷ names) (b, sts) =
      let (b', failed) = init_interface_method name b in methods names (b', sts + failed)

  -- The interface is kept if every method was found.
  add_interface : ℕ → Built × ℕ → Built × ℕ
  add_interface index (b, sts) =
      if sts == 0 then (record b { ifmap = b.ifmap ++ index ∷ [] }, 0) else (b, sts)

  -- The common end of `init_interface_0` and `init_interface_1`.
  unfoldable pub init_interface : ℕ → Text → List Text → Built → Built × ℕ
  unfolding add_interface
  init_interface index missing names b =
      if lib.has_interface psolib index
      then add_interface index (methods names (b, 0))
      else (record b { errors = b.errors ++ missing ∷ [] }, 1)

  unfoldable pub init_interface_0 : Built → Built × ℕ
  unfolding init_interface
  init_interface_0 = init_interface 0 (codes "Interface IF0 not available.") symbols_0

  unfoldable pub init_interface_1 : Built → Built × ℕ
  unfolding init_interface
  init_interface_1 = init_interface 1 (codes "Interface IF1 not available.") symbols_1

  unfoldable pub with_1 : Built × ℕ → Built × ℕ
  with_1 (b, sts) =
      if sts == 0
      then (if (init_interface_1 b).1 == 0
          then ((init_interface_1 b).0, 0)
          else ((init_interface_1 b).0, 1))
      else (b, 1)

  unfoldable pub with_0 : Built × ℕ → Built × ℕ
  unfolding with_1
  with_0 (b, sts) = if sts == 0 then with_1 (init_interface_0 b) else (b, sts)

  unfoldable pub init_interfaces : Built → Built × ℕ
  unfolding with_0
  init_interfaces b = with_0 (methods base_symbols (b, 0))
