-- ===== src/Action/Property.antt =====
-- The properties of an action and their getters, src/rvsactionbase.cpp and include/rvsactionbase.h.
-- A getter returns its code with what it stores.
use rocm_validation_suite.Prelude.{
  ℕ, Bool, true, false, Option, none, some, List, [], Text, codes, Map, find, put, str_eq, ◌==◌,
  if◌then◌else◌,
}
use rocm_validation_suite.Util.Split.{str_split}
use rocm_validation_suite.Util.Number.{
  rvs_util_parse, rvs_util_parse_bool, rvs_util_strarr_to_uintarr,
}

-- `rvs::lp::Err`, and `rvs::lp::Log` at two levels.
pub data Level : Type 0 where
  error info trace : Level

-- The fields of `rvs::actionbase` that the getters write, with the messages sent to the log.
pub record Action : Type 0 where
  pub action_name : Text
  pub module_name : Text
  pub property_device_id : ℕ
  pub property_device_index : List ℕ
  pub property_device_index_all : Bool
  pub property_device : List ℕ
  pub property_device_all : Bool
  pub property_parallel : Bool
  pub property_count : ℕ
  pub property_wait : ℕ
  pub property_duration : ℕ
  pub property_log_interval : ℕ
  pub bjson : Bool
  pub property : Map Text
  pub messages : List (Level × Text)

-- An entry that is there is overwritten, and any other inserted: both are `put`.
unfoldable pub property_set : Text → Text → Action → Action
property_set key val a = elim (find key a.property) [
  | some old ↦ record a { property = put key val a.property }
  | none ↦ record a { property = put key val a.property }
]

unfoldable pub has_property : Text → Action → Option Text
has_property key a = find key a.property

unfoldable pub tokens : Text → Text → List Text
tokens s delimiter = elim (str_split s delimiter) [ none ↦ [] | some ts ↦ ts ]

unfoldable pub or_clear : Option ℕ × List ℕ → ℕ × List ℕ × Bool
or_clear (none, arr) = (1, [], false)
or_clear (some n, arr) = (0, arr, false)

-- The code, the list and the flag for "all"; 2 leaves both as they were.
unfoldable pub property_get_uint_list : ℕ → Text → Text → List ℕ → Bool → Action → ℕ × List ℕ × Bool
unfolding has_property tokens or_clear
property_get_uint_list w key delimiter pval pball a = elim (has_property key a) [
  | none ↦ (2, pval, pball)
  | some strval ↦
      if str_eq strval (codes "all")
      then (0, [], true)
      else or_clear (rvs_util_strarr_to_uintarr w (tokens strval delimiter))
]

unfoldable pub property_get_int : ℕ → Text → ℕ → Action → ℕ × ℕ
unfolding has_property
property_get_int w prop_name key a = elim (has_property prop_name a) [
  | none ↦ (2, key)
  | some val ↦ rvs_util_parse w val key
]

-- The overload with a default for a missing key.
unfoldable pub property_get_int_or : ℕ → Text → ℕ → ℕ → Action → ℕ × ℕ
unfolding has_property
property_get_int_or w prop_name key def_value a = elim (has_property prop_name a) [
  | none ↦ (0, def_value)
  | some val ↦ rvs_util_parse w val key
]

unfoldable pub property_get_bool : Text → Bool → Action → ℕ × Bool
unfolding has_property
property_get_bool prop_name val a = elim (has_property prop_name a) [
  | none ↦ (2, val)
  | some sval ↦ rvs_util_parse_bool sval val
]

-- The template with a default, at `bool`: code 2 takes the default.
unfoldable pub property_get_bool_or : Text → Bool → Bool → Action → ℕ × Bool
unfolding property_get_bool
property_get_bool_or prop_name val default a =
    let (sts, got) = property_get_bool prop_name val a in
    if sts == 2 then (0, default) else (sts, got)

unfoldable pub property_get_string : Text → Text → Action → ℕ × Text
unfolding has_property
property_get_string prop_name val a = elim (has_property prop_name a) [
  | none ↦ (2, val)
  | some got ↦ (0, got)
]
