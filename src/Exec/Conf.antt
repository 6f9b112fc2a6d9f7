-- ===== src/Exec/Conf.antt =====
-- How `rvs::exec::run` of rvs/src/rvsexec.cpp finds the configuration file: the options -r, -m
-- and -c. The files that can be read and the name of the GPU are parameters.
use rocm_validation_suite.Prelude.{
  Bool, not, ◌||◌, is_nil, Option, none, some, List, [], ◌∷◌, ◌++◌, Text, codes, Map, find, str_eq,
  if◌then◌else◌,
}

-- `std::ifstream(file).good()`, and `get_gpu_name()`.
pub record Site : Type 0 where
  pub good : Text → Bool
  pub gpu_name : Text

-- A message is what is logged before the status -1 is returned.
pub data Checked {ℓ} (A : Type ℓ) : Type ℓ where
  accepted : A → Checked A
  refused : Text → Checked A

unfoldable pub and_then {ℓ κ} : {A : Type ℓ} {B : Type κ} → Checked A → (A → Checked B) → Checked B
and_then (accepted a) f = f a
and_then (refused msg) f = refused msg

abbrev pub share : Text
share = codes "../share/rocm-validation-suite/conf/"

abbrev pub missing : Text → Text
missing file = file ++ codes " file is missing."

-- The map `module_config_map`.
unfoldable pub module_config_map : Map Text
module_config_map =
    (codes "babel", codes "babel.conf")
    ∷ (codes "gpup", codes "gpup_single.conf")
    ∷ (codes "gst", codes "gst_single.conf")
    ∷ (codes "iet", codes "iet_stress.conf")
    ∷ (codes "mem", codes "mem.conf")
    ∷ (codes "pebb", codes "pebb_single.conf")
    ∷ (codes "peqt", codes "peqt_single.conf")
    ∷ (codes "pbqt", codes "pbqt_single.conf")
    ∷ (codes "rcqt", codes "rcqt_single.conf")
    ∷ (codes "tst", codes "tst_single.conf")
    ∷ []

unfoldable pub is_level : Text → Bool
is_level val =
    str_eq val (codes "1")
    || (str_eq val (codes "2")
        || (str_eq val (codes "3") || (str_eq val (codes "4") || str_eq val (codes "5"))))

unfoldable pub module_confs : Text → Text → List Text
module_confs name conf =
    conf ∷ (if str_eq name (codes "iet") then codes "iet_single.conf" ∷ [] else [])

module _ (site : Site) (path : Text) where
  -- The installed file, or the one of older installations.
  unfoldable pub prefer : Text → Text → Text
  prefer installed old = if site.good (path ++ installed) then path ++ installed else path ++ old

  unfoldable pub check_file : Text → Checked Text
  check_file file = if site.good file then accepted file else refused (missing file)

  unfoldable pub level_file : Text → Text
  level_file val = site.gpu_name ++ (codes "/levels/rvs_level_" ++ (val ++ codes ".conf"))

  -- The option -r.
  unfoldable pub level_conf : Text → Checked Text
  unfolding check_file prefer is_level
  level_conf val =
      if not (is_level val)
      then refused (codes "Test level must be between 1 and 5 !")
      else if is_nil site.gpu_name
      then refused (codes "No test levels support for the detected GPU or no GPU detected !")
      else check_file (prefer (share ++ level_file val) (codes "conf/" ++ level_file val))

  unfoldable pub platform_file : Text → Text
  platform_file conf = site.gpu_name ++ (codes "/" ++ conf)

  -- The loop over `confs`, with the value of `config_file`.
  unfoldable pub try_confs : List Text → Text → Checked Text
  unfolding prefer
  try_confs [] config_file = refused (missing config_file)
  try_confs (conf ∷ confs) config_file =
      let own = prefer (share ++ platform_file conf) (codes "conf/" ++ platform_file conf) in
      let default = path ++ (codes "conf/" ++ conf) in
      let rest = try_confs confs default in
      if site.good own then accepted own else if site.good default then accepted default else rest

  -- The option -m.
  unfoldable pub module_conf : Text → Text → Checked Text
  unfolding try_confs module_confs
  module_conf name config_file = elim (find name module_config_map) [
    | none ↦ refused (codes "Invalid module name: " ++ name)
    | some conf ↦
        if is_nil site.gpu_name
        then refused (codes "No platform support for the detected GPU or no GPU detected !")
        else try_confs (module_confs name conf) config_file
  ]

  -- The option -c.
  unfoldable pub given_conf : Option Text → Checked Text
  unfolding check_file prefer
  given_conf none = check_file (prefer (share ++ codes "rvs.conf") (codes "conf/rvs.conf"))
  given_conf (some val) = check_file val

unfoldable pub option_or : Option Text → Text → Text
option_or none t = t
option_or (some s) t = s

module _ (site : Site) (path : Text) where
  read_level : Option Text → Checked Text
  unfolding level_conf
  read_level none = accepted []
  read_level (some val) = level_conf site path val

  read_module : Option Text → Text → Checked Text
  unfolding module_conf
  read_module none config_file = accepted config_file
  read_module (some name) config_file = module_conf site path name config_file

  read_given : Option Text → Option Text → Option Text → Text → Checked Text
  unfolding given_conf
  read_given none none c config_file = given_conf site path c
  read_given none (some m) c config_file = accepted config_file
  read_given (some r) m c config_file = accepted config_file

  unfoldable pub find_conf : Option Text → Option Text → Option Text → Checked Text
  unfolding and_then read_level read_module read_given
  find_conf r m c = and_then (and_then (read_level r) (read_module m)) (read_given r m c)

-- The part of `run` that finds the configuration file.
unfoldable pub choose_conf : Site → Map Text → Checked Text
unfolding find_conf option_or
choose_conf site opt =
    find_conf site (option_or (find (codes "pwd") opt) []) (find (codes "-r") opt)
      (find (codes "-m") opt) (find (codes "-c") opt)
