-- ===== src/Action/Keys.antt =====
-- `get_all_common_config_keys` of src/rvsactionbase.cpp, a step for each key, in its order.
-- A step takes and gives the action and `bsts`.
use rocm_validation_suite.Prelude.{
  ℕ, Bool, true, false, not, ◌||◌, none, some, List, [], ◌∷◌, ◌++◌, Text, codes, str_eq, is_nil,
  ◌==◌, if◌then◌else◌,
}
use rocm_validation_suite.Action.Property.{
  Action, Level, error, info, trace, has_property, property_get_uint_list, property_get_int_or,
  property_get_bool_or, property_get_string,
}

unfoldable pub say : Level → Text → Action → Action
say level text a = record a { messages = a.messages ++ (level, text) ∷ [] }

-- `rvs::lp::Err(msg, …); bsts = false;` if the code is not 0.
unfoldable pub report : ℕ → Text → Action × Bool → Action × Bool
unfolding say
report sts msg (a, bsts) = if sts == 0 then (a, bsts) else (say error msg a, false)

device_message : Text → ℕ → Text
device_message key sts =
    if sts == 1
    then codes "Invalid '" ++ key ++ codes "' key value."
    else codes "Missing '" ++ key ++ codes "' key."

unfoldable pub read_json_flag : Action × Bool → Action × Bool
read_json_flag (a, bsts) = elim (has_property (codes "cli.-j") a) [
  | none ↦ (a, bsts)
  | some v ↦ (record a { bjson = true }, bsts)
]

unfoldable pub read_device : Action × Bool → Action × Bool
unfolding report device_message
read_device (a, bsts) =
    let got =
      property_get_uint_list 16 (codes "device") (codes " ") a.property_device a.property_device_all
        a in
    report got.0 (device_message (codes "device") got.0)
      (record a { property_device = got.1; property_device_all = got.2 }, bsts)

unfoldable pub read_device_id : Action × Bool → Action × Bool
unfolding report
read_device_id (a, bsts) =
    let got = property_get_int_or 16 (codes "deviceid") a.property_device_id 0 a in
    report got.0 (codes "Invalid 'deviceid' key value.")
      (record a { property_device_id = got.1 }, bsts)

-- A missing or invalid list of indexes is only logged, and means all.
unfoldable pub read_device_index : Action × Bool → Action × Bool
unfolding say device_message
read_device_index (a, bsts) =
    let got =
      property_get_uint_list 16 (codes "device_index") (codes " ") a.property_device_index
        a.property_device_index_all a in
    let a' = record a { property_device_index = got.1; property_device_index_all = got.2 } in
    if got.0 == 0 then (a', bsts) else (
      say info (device_message (codes "device_index") got.0)
          (record a' { property_device_index_all = true }),
      bsts,
    )

-- A list that is not empty turns both flags off.
unfoldable pub settle_all : Action × Bool → Action × Bool
settle_all (a, bsts) =
    if not (is_nil a.property_device_index) || not (is_nil a.property_device)
    then (record a { property_device_all = false; property_device_index_all = false }, bsts)
    else (a, bsts)

unfoldable pub read_parallel : Action × Bool → Action × Bool
unfolding report
read_parallel (a, bsts) =
    let got = property_get_bool_or (codes "parallel") a.property_parallel false a in
    report got.0 (codes "invalid 'parallel' key value")
      (record a { property_parallel = got.1 }, bsts)

unfoldable pub read_count : Action × Bool → Action × Bool
unfolding report
read_count (a, bsts) =
    let got = property_get_int_or 64 (codes "count") a.property_count 1 a in
    report got.0 (codes "invalid 'count' key value") (record a { property_count = got.1 }, bsts)

-- An invalid "wait" is refused without a message.
unfoldable pub read_wait : Action × Bool → Action × Bool
read_wait (a, bsts) =
    let got = property_get_int_or 64 (codes "wait") a.property_wait 500 a in
    let a' = record a { property_wait = got.1 } in if got.0 == 0 then (a', bsts) else (a', false)

unfoldable pub read_duration : Action × Bool → Action × Bool
unfolding report
read_duration (a, bsts) =
    let got = property_get_int_or 64 (codes "duration") a.property_duration 10000 a in
    report got.0 (codes "Invalid 'duration' key") (record a { property_duration = got.1 }, bsts)

unfoldable pub read_log_interval : Action × Bool → Action × Bool
unfolding report
read_log_interval (a, bsts) =
    let got = property_get_int_or 64 (codes "log_interval") a.property_log_interval 1000 a in
    report got.0 (codes "Invalid 'log_interval' key")
      (record a { property_log_interval = got.1 }, bsts)

one_of : Text → List Text → Bool
one_of s [] = false
one_of s (t ∷ ts) = str_eq t s || one_of s ts

-- `duration_mods`
unfoldable pub has_duration : Text → Bool
unfolding one_of
has_duration module_name = one_of module_name (
    codes "gst"
    ∷ codes "iet"
    ∷ codes "tst"
    ∷ codes "pebb"
    ∷ codes "pbqt"
    ∷ codes "gm"
    ∷ codes "pulse"
    ∷ [])

unfoldable pub read_keys : Action → Action × Bool
unfolding say
read_keys a =
    let start =
      say trace
        (codes "["
          ++ a.action_name
          ++ codes "] "
          ++ a.module_name
          ++ codes "   Getting all common properties")
        a in
    read_wait (
      read_count (
        read_parallel (
          settle_all
            (read_device_index (read_device_id (read_device (read_json_flag (start, true))))))))

-- The last two keys are read for the modules that have a duration.
unfoldable pub read_timing : Action × Bool → Action × Bool
read_timing (a, bsts) =
    if has_duration a.module_name then read_log_interval (read_duration (a, bsts)) else (a, bsts)

unfoldable pub get_all_common_config_keys : Action → Action × Bool
unfolding say
get_all_common_config_keys a =
    let got = property_get_string (codes "name") a.action_name a in
    if got.0 == 0
    then read_timing (read_keys (record a { action_name = got.1 }))
    else (say error (codes "Action name missing") a, false)
