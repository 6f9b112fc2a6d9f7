-- ===== src/Action/Examples.antt =====
-- An action of the module gst.
use rocm_validation_suite.Prelude.{◌≡◌, refl, ◌↔◌, true, false, [], ◌∷◌, codes, find, str_eq}
use rocm_validation_suite.Util.Split.{str_split}
use rocm_validation_suite.Util.Number.{rvs_util_parse, rvs_util_strarr_to_uintarr, stoul}
use rocm_validation_suite.Action.Property.{
  Action, property_get_uint_list, property_get_int_or, property_get_bool_or, property_get_string,
}
use rocm_validation_suite.Action.Keys.{
  read_json_flag, read_device, read_device_id, read_device_index, settle_all, read_parallel,
  read_count, read_wait, read_duration, read_log_interval, has_duration, read_keys, read_timing,
  get_all_common_config_keys,
}
use rocm_validation_suite.Action.Valid.{IsConfigured, get_all_accepts}

abbrev gst : Action
gst = record {
  action_name = [];
  module_name = codes "gst";
  property_device_id = 0;
  property_device_index = [];
  property_device_index_all = true;
  property_device = [];
  property_device_all = true;
  property_parallel = false;
  property_count = 0;
  property_wait = 0;
  property_duration = 0;
  property_log_interval = 0;
  bjson = false;
  property =
      (codes "name", codes "stress")
      ∷ (codes "device", codes "3254 50599")
      ∷ (codes "count", codes "2")
      ∷ [];
  messages = [];
}

gst_devices : (get_all_common_config_keys gst).0.property_device ≡ (3254 ∷ 50599 ∷ [])
unfolding get_all_common_config_keys read_keys read_timing read_json_flag read_device read_device_id
    read_device_index settle_all read_parallel read_count read_wait read_duration read_log_interval
    has_duration property_get_uint_list property_get_int_or property_get_bool_or property_get_string
    find str_eq str_split rvs_util_parse rvs_util_strarr_to_uintarr stoul
gst_devices = refl

get_all_accepts_example : ((get_all_common_config_keys gst).1 ≡ true) ↔ IsConfigured gst
get_all_accepts_example = get_all_accepts gst
