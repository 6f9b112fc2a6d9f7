-- ===== src/Exec/Properties.antt =====
-- `do_yaml_properties` of rvs/src/rvsexec_do_yaml.cpp: which properties of an action are set. What
-- yaml-cpp reads is given as data; `none` is a conversion that throws.
use rocm_validation_suite.Prelude.{
  ℕ, ◌+◌, ◌*◌, ◌%◌, ◌^◌, Bool, true, false, ◌&&◌, Option, none, some, List, [], ◌∷◌, ◌++◌, Text,
  codes, Map, find, str_eq, is_nil, leb, map, ◌==◌, if◌then◌else◌,
}
use rocm_validation_suite.Util.Split.{str_split}
use rocm_validation_suite.Util.Number.{rvs_util_strarr_to_uintarr, to_string}

pub record Leaf : Type 0 where
  pub is_null : Bool
  pub text : Option Text

-- A key of an action, with its value as a text and as a collection.
pub record Entry : Type 0 where
  pub key : Text
  pub text : Option Text
  pub children : List (Text × Leaf)

-- The calls of `property_set` in order, with what else is added to the status; `none` means that
-- an exception ends the function after these calls.
abbrev pub Sets : Type 0
Sets = List (Text × Text) × Option ℕ

-- First the one, and unless it throws then the other.
abbrev pub and_sets : Sets → Sets → Sets
and_sets (calls, none) s = (calls, none)
and_sets (calls, some n) (calls', none) = (calls ++ calls', none)
and_sets (calls, some n) (calls', some n') = (calls ++ calls', some (n + n'))

abbrev pub set_to : Text → Option Text → Sets
set_to key none = ([], none)
set_to key (some value) = ((key, value) ∷ [], some 0)

unfoldable pub is_yaml_properties_collection : Text → Text → Bool
is_yaml_properties_collection module_name property_name =
    if str_eq module_name (codes "gpup")
    then if str_eq property_name (codes "properties")
      then true
      else str_eq property_name (codes "io_links-properties")
    else if str_eq module_name (codes "peqt")
    then str_eq property_name (codes "capability")
    else str_eq module_name (codes "gm") && str_eq property_name (codes "metrics")

unfoldable pub do_yaml_properties_collection : Text → List (Text × Leaf) → Sets
do_yaml_properties_collection parent_name [] = ([], some 0)
do_yaml_properties_collection parent_name ((key, leaf) ∷ rest) =
    and_sets
      (set_to (parent_name ++ (codes "." ++ key)) (if leaf.is_null then some [] else leaf.text))
      (do_yaml_properties_collection parent_name rest)

-- `std::replace(…, ',', ' ')`
unfoldable pub commas_to_spaces : Text → Text
commas_to_spaces = map (λ c. if c == b',' then b' ' else c)

unfoldable pub gpu_check_if_gpu_indexes : ℕ → List ℕ → Bool
gpu_check_if_gpu_indexes smi_num_devices [] = true
gpu_check_if_gpu_indexes smi_num_devices (i ∷ index) =
    if leb smi_num_devices i then false else gpu_check_if_gpu_indexes smi_num_devices index

-- `stoull` throws on `none`; the number of devices is that of the SMI's map.
pub record Numbers : Type 0 where
  pub stoull : Text → Option ℕ
  pub smi_num_devices : ℕ

module _ (numbers : Numbers) where
  -- The option -i in place of the key "device".
  unfoldable pub set_indexes : Text → Entry → Sets
  unfolding commas_to_spaces gpu_check_if_gpu_indexes
  set_indexes indexes e =
      let spaced = commas_to_spaces indexes in
      let strarray : List Text = elim (str_split spaced (codes " ")) [ none ↦ [] | some ts ↦ ts ] in
      if gpu_check_if_gpu_indexes numbers.smi_num_devices (rvs_util_strarr_to_uintarr 16 strarray).1
      then and_sets (set_to (codes "device_index") (some spaced)) (set_to e.key e.text)
      else set_to (codes "device") (some spaced)

  -- One key; `none` for the option -i that is not given, or empty.
  unfoldable pub set_entry : Text → Option Text → Entry → Sets
  unfolding do_yaml_properties_collection is_yaml_properties_collection set_indexes
  set_entry module_name none e =
      if is_yaml_properties_collection module_name e.key
      then do_yaml_properties_collection e.key e.children
      else set_to e.key e.text
  set_entry module_name (some indexes) e =
      if is_yaml_properties_collection module_name e.key
      then do_yaml_properties_collection e.key e.children
      else if str_eq e.key (codes "device")
      then set_indexes indexes e
      else set_to e.key e.text

  unfoldable pub set_entries : Text → Option Text → List Entry → Sets
  set_entries module_name indexes [] = ([], some 0)
  set_entries module_name indexes (e ∷ node) =
      and_sets (set_entry module_name indexes e) (set_entries module_name indexes node)

  -- The option -p; another value is an error.
  unfoldable pub set_parallel : Option Text → Sets
  set_parallel none = ([], some 0)
  set_parallel (some parallel) =
      if str_eq parallel (codes "false")
      then set_to (codes "parallel") (some (codes "false"))
      else if str_eq parallel (codes "true")
      then set_to (codes "parallel") (some (codes "true"))
      else if is_nil parallel
      then set_to (codes "parallel") (some (codes "true"))
      else ([], some 1)

  unfoldable pub duration_text : Option ℕ → Option Text
  duration_text none = none
  duration_text (some n) = some (to_string (n * 1000 % 2 ^ 64))

  -- The option -t, in seconds; the property is in milliseconds.
  unfoldable pub set_duration : Option Text → Sets
  unfolding duration_text
  set_duration none = ([], some 0)
  set_duration (some duration) = set_to (codes "duration") (duration_text (numbers.stoull duration))

  -- An option that is given and not empty.
  unfoldable pub full : Option Text → Option Text
  full none = none
  full (some []) = none
  full (some (c ∷ s)) = some (c ∷ s)

  unfoldable pub do_yaml_properties : Map Text → Text → List Entry → Sets
  unfolding full
  do_yaml_properties opt module_name node =
      and_sets (set_entries module_name (full (find (codes "-i") opt)) node)
        (and_sets (set_parallel (find (codes "-p") opt)) (set_duration (find (codes "-t") opt)))
