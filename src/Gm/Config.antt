-- ===== src/Gm/Config.antt =====
-- The configuration keys of gm.so/src/action.cpp: `get_bounds` and `get_all_gm_config_keys`, a step
-- for each key, in its order.
use rocm_validation_suite.Prelude.{
  ℕ, Bool, true, false, not, none, some, List, [], ◌∷◌, ◌++◌, Text, codes, str_eq, ◌==◌, ltb,
  if◌then◌else◌,
}
use rocm_validation_suite.Util.Number.{rvs_util_parse}
use rocm_validation_suite.Action.{
  Action, error, has_property, tokens, property_get_bool_or, property_get_int_or,
}
use rocm_validation_suite.Action.Keys.{say}
use rocm_validation_suite.Gm.Worker.{Bound}

-- The fields of `gm_action` beside those of `rvs::actionbase`.
pub record GmAction : Type 0 where
  pub base : Action
  pub bound_temp : Bound
  pub bound_clock : Bound
  pub bound_mem_clock : Bound
  pub bound_fan : Bound
  pub bound_power : Bound
  pub prop_force : Bool
  pub prop_terminate : Bool
  pub sample_interval : ℕ

-- The code, and the bound that is kept.
unfoldable pub parse_bound : List Text → Bound → ℕ × Bound
parse_bound (flag ∷ high ∷ low ∷ []) old =
    let top = rvs_util_parse 32 high 0 in
    let bottom = rvs_util_parse 32 low 0 in
    if top.0 == 0
    then (if bottom.0 == 0
        then (
          0,
          record {
            mon_metric = true;
            check_bounds = str_eq flag (codes "true");
            max_val = top.1;
            min_val = bottom.1;
          },
        )
        else (1, old))
    else (1, old)
parse_bound values old = (1, old)

unfoldable pub get_bounds : Text → Action → Bound → ℕ × Bound
unfolding has_property parse_bound
get_bounds metric a old = elim (has_property (codes "metrics." ++ metric) a) [
  | none ↦ (2, old)
  | some sval ↦ parse_bound (tokens sval (codes " ")) old
]

-- `rvs::lp::Err(msg, …); sts = false;` on a condition.
unfoldable pub object : Bool → Text → GmAction × Bool → GmAction × Bool
unfolding say
object bad msg (a, sts) =
    if bad then (record a { base = say error msg a.base }, false) else (a, sts)

abbrev invalid : Text → Text
invalid key = codes "Invalid '" ++ (key ++ codes "' key.")

unfoldable pub read_temp : GmAction × Bool → GmAction × Bool
read_temp (a, sts) =
    let got = get_bounds (codes "temp") a.base a.bound_temp in
    object (got.0 == 1) (invalid (codes "metrics.temp")) (record a { bound_temp = got.1 }, sts)

unfoldable pub read_clock : GmAction × Bool → GmAction × Bool
read_clock (a, sts) =
    let got = get_bounds (codes "clock") a.base a.bound_clock in
    object (got.0 == 1) (invalid (codes "metrics.clock")) (record a { bound_clock = got.1 }, sts)

unfoldable pub read_mem_clock : GmAction × Bool → GmAction × Bool
read_mem_clock (a, sts) =
    let got = get_bounds (codes "mem_clock") a.base a.bound_mem_clock in
    object (got.0 == 1) (invalid (codes "metrics.mem_clock"))
      (record a { bound_mem_clock = got.1 }, sts)

unfoldable pub read_fan : GmAction × Bool → GmAction × Bool
read_fan (a, sts) =
    let got = get_bounds (codes "fan") a.base a.bound_fan in
    object (got.0 == 1) (invalid (codes "metrics.fan")) (record a { bound_fan = got.1 }, sts)

unfoldable pub read_power : GmAction × Bool → GmAction × Bool
read_power (a, sts) =
    let got = get_bounds (codes "power") a.base a.bound_power in
    object (got.0 == 1) (invalid (codes "metrics.power")) (record a { bound_power = got.1 }, sts)

unfoldable pub read_force : GmAction × Bool → GmAction × Bool
read_force (a, sts) =
    let got = property_get_bool_or (codes "force") a.prop_force false a.base in
    object (not (got.0 == 0)) (invalid (codes "force")) (record a { prop_force = got.1 }, sts)

unfoldable pub read_terminate : GmAction × Bool → GmAction × Bool
read_terminate (a, sts) =
    let got = property_get_bool_or (codes "terminate") a.prop_terminate false a.base in
    object (not (got.0 == 0)) (invalid (codes "terminate"))
      (record a { prop_terminate = got.1 }, sts)

unfoldable pub read_sample_interval : GmAction × Bool → GmAction × Bool
read_sample_interval (a, sts) =
    let got = property_get_int_or 64 (codes "sample_interval") a.sample_interval 500 a.base in
    object (not (got.0 == 0)) (invalid (codes "sample_interval"))
      (record a { sample_interval = got.1 }, sts)

unfoldable pub compare_intervals : GmAction × Bool → GmAction × Bool
compare_intervals (a, sts) =
    object (ltb a.base.property_log_interval a.sample_interval)
      (codes "Log interval has the lower value than the sample interval.") (a, sts)

unfoldable pub get_all_gm_config_keys : GmAction → GmAction × Bool
get_all_gm_config_keys a = compare_intervals (
    read_sample_interval (
      read_terminate
        (read_force (read_power (read_fan (read_mem_clock (read_clock (read_temp (a, true)))))))))
