-- ===== src/Exec/Examples.antt =====
-- The executor at concrete options.
use rocm_validation_suite.Prelude.{
  ◌≡◌, refl, true, false, ◌&&◌, none, some, [], ◌∷◌, Text, codes, Map, find, str_eq, if◌then◌else◌,
}
use rocm_validation_suite.Exec.Conf.{Site, choose_conf, option_or}
use rocm_validation_suite.Exec.Chosen.{
  accepted_file, first_good, level_fine, module_fine, conf_files, choose_conf_first,
}
use rocm_validation_suite.Exec.Run.{pos, Calls, Launch, read_options, run, read_d, read_n, read_t}
use rocm_validation_suite.Exec.Zero.{IsSuccess, run_zero}
use rocm_validation_suite.Exec.Closed.{IsClosed, run-IsClosed}

-- One file can be read, besides the default one of the module gst for an MI300X.
abbrev site : Site
site = record {
  good = λ file.
      if str_eq file (codes "my.conf")
      then true
      else str_eq file (codes "/opt/conf/MI300X/gst_single.conf");
  gpu_name = codes "MI300X";
}

abbrev calls : Calls
calls = record {
  site = site;
  stoi = λ val. if str_eq val (codes "3") then some (pos 3) else none;
  stoll = λ val. if str_eq val (codes "500") then some (pos 500) else none;
  modules_read = λ file. true;
  log_opened = true;
  gpu_list = pos 0;
  what = [];
  do_yaml = λ file times. some (pos 0);
  stopping = false;
}

abbrev with_module : Map Text
with_module = (codes "pwd", codes "/opt/") ∷ (codes "-m", codes "gst") ∷ []

abbrev with_file : Map Text
with_file =
    (codes "-c", codes "my.conf")
    ∷ (codes "-d", codes "3")
    ∷ (codes "-n", codes "3")
    ∷ (codes "-t", codes "500")
    ∷ []

abbrev launch : Launch
launch = record {
  log_level = 3;
  append = false;
  log_file = none;
  json_log_file = none;
  config_file = codes "my.conf";
  num_times = pos 3;
}

choose_conf_first_example : accepted_file (choose_conf site with_module) ≡ (
    if level_fine site (codes "/opt/") none && module_fine site (codes "/opt/") (some (codes "gst"))
    then first_good site (conf_files site (codes "/opt/") none (some (codes "gst")) none)
    else none)
unfolding find str_eq option_or
choose_conf_first_example = choose_conf_first site with_module

run_zero_example : IsSuccess calls with_file
unfolding run read_options choose_conf find str_eq read_d read_n read_t
run_zero_example = run_zero calls with_file refl

run-IsClosed_example : IsClosed (run calls with_file).1
run-IsClosed_example = run-IsClosed calls with_file
