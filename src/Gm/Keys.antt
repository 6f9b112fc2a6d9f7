-- ===== src/Gm/Keys.antt =====
-- Which configuration keys the monitor of gm.so/src/action.cpp accepts.
use rocm_validation_suite.Prelude.{
  ℕ, ◌%◌, ◌^◌, ◌≤◌, ◌≡◌, refl, ◌∙◌, ◌↔◌, inl, inr, Bool, true, false, none, some, Text, codes, Map,
  find, ltb, arith,
}
use rocm_validation_suite.Util.Number.{digits_value}
use rocm_validation_suite.Util.Number.Correct.{rvs_util_parse_outcome}
use rocm_validation_suite.Action.{Action, property_get_int_or}
use rocm_validation_suite.Action.Getters.{IsIntKey, IsBoolKey, int_code}
use rocm_validation_suite.Gm.Config.{
  GmAction, read_temp, read_clock, read_mem_clock, read_fan, read_power, read_sample_interval,
  compare_intervals, get_all_gm_config_keys,
}
use rocm_validation_suite.Gm.Bounds.{IsBoundsKey}
use rocm_validation_suite.Gm.Checks.{
  Checks, object_keeps, object_logs, object_sampled, object_tests, not_zero, temp-Checks,
  clock-Checks, mem_clock-Checks, fan-Checks, power-Checks, force-Checks, terminate-Checks, after,
}

-- The interval that the key stands for.
pub interval : Map Text → ℕ
interval m = elim (find (codes "sample_interval") m) [
  | none ↦ 500
  | some v ↦ digits_value 0 v % 2 ^ 64
]

abbrev pub IsSampled : Map Text → ℕ → Type 0
IsSampled m log = IsIntKey (codes "sample_interval") m × (interval m ≤ log)

interval_read :
    (a : Action) (old : ℕ)
    → IsIntKey (codes "sample_interval") a.property
    → (property_get_int_or 64 (codes "sample_interval") old 500 a).1 ≡ interval a.property
unfolding property_get_int_or interval
interval_read a old (inl missing) = ground (arith, missing)
interval_read a old (inr (v, there, good)) = elim (rvs_util_parse_outcome 64 old v) [
  | inl (number, got) ↦ ground (arith, there, got)
  | inr (inl (empty, got)) ↦ absurd (good.full empty)
  | inr (inr (full, bad, got)) ↦ absurd (bad good)
]

fast_enough : (x y : ℕ) → (ltb x y ≡ false) ↔ (y ≤ x)
fast_enough x y = (λ h. ground arith, λ k. ground (arith, k))

abbrev read_sampling : GmAction × Bool → GmAction × Bool
read_sampling s = compare_intervals (read_sample_interval s)

sample_tests :
    (a : GmAction) (b : Bool)
    → ((read_sample_interval (a, b)).1 ≡ true)
      ↔ ((b ≡ true) × IsIntKey (codes "sample_interval") a.base.property)
unfolding read_sample_interval
sample_tests a b =
    object_tests _ _ _ b _
      (not_zero _ (int_code 64 (codes "sample_interval") a.sample_interval 500 a.base))

sample_logs :
    (a : GmAction) (b : Bool)
    → (read_sample_interval (a, b)).0.base.property_log_interval ≡ a.base.property_log_interval
unfolding read_sample_interval
sample_logs a b = object_logs _ _ _ b

sample_reads :
    (a : GmAction) (b : Bool)
    → IsIntKey (codes "sample_interval") a.base.property
    → (read_sample_interval (a, b)).0.sample_interval ≡ interval a.base.property
unfolding read_sample_interval
sample_reads a b key = object_sampled _ _ _ b ∙ interval_read a.base a.sample_interval key

compare_tests :
    (a : GmAction) (b : Bool)
    → ((compare_intervals (a, b)).1 ≡ true)
      ↔ ((b ≡ true) × (a.sample_interval ≤ a.base.property_log_interval))
unfolding compare_intervals
compare_tests a b =
    object_tests _ _ a b _ (fast_enough a.base.property_log_interval a.sample_interval)

sampling_tests :
    (a : GmAction) (b : Bool)
    → ((read_sampling (a, b)).1 ≡ true)
      ↔ ((b ≡ true) × IsSampled a.base.property a.base.property_log_interval)
sampling_tests a b =
    let now = compare_tests (read_sample_interval (a, b)).0 (read_sample_interval (a, b)).1 in
    let before = sample_tests a b in
    (
      λ h.
          let (mid, short) = now.0 h in
          let (first, key) = before.0 mid in
          (first, (key, omega (arith, short, sample_logs a b, sample_reads a b key))),
      λ k.
          now.1
            (before.1 (k.0, k.1.0), omega (arith, k.1.1, sample_logs a b, sample_reads a b k.1.0)),
    )

sampling-Checks : Checks IsSampled read_sampling
unfolding read_sample_interval compare_intervals
sampling-Checks = record {
  keeps = λ a b. object_keeps _ _ _ _ ∙ object_keeps _ _ _ b;
  logs = λ a b. object_logs _ _ _ _ ∙ object_logs _ _ _ b;
  tests = λ a b. sampling_tests a b;
}

-- The keys of the monitor are as `get_all_gm_config_keys` wants them.
pub record IsMonitorable (a : GmAction) : Type 0 where
  pub temp : IsBoundsKey (codes "temp") a.base.property
  pub clock : IsBoundsKey (codes "clock") a.base.property
  pub mem_clock : IsBoundsKey (codes "mem_clock") a.base.property
  pub fan : IsBoundsKey (codes "fan") a.base.property
  pub power : IsBoundsKey (codes "power") a.base.property
  pub force : IsBoolKey (codes "force") a.base.property
  pub terminate : IsBoolKey (codes "terminate") a.base.property
  pub sampled : IsSampled a.base.property a.base.property_log_interval

-- The metrics, as the steps nest.
abbrev Metrics : Map Text → ℕ → Type 0
Metrics m log =
    (((IsBoundsKey (codes "temp") m × IsBoundsKey (codes "clock") m)
        × IsBoundsKey (codes "mem_clock") m)
      × IsBoundsKey (codes "fan") m)
    × IsBoundsKey (codes "power") m

Metrics-Checks :
    Checks Metrics (λ s. read_power (read_fan (read_mem_clock (read_clock (read_temp s)))))
Metrics-Checks =
    after (after (after (after temp-Checks clock-Checks) mem_clock-Checks) fan-Checks) power-Checks

-- `get_all_gm_config_keys` returns true exactly when each metric has no key or one of a word and two
-- numbers, `force` and `terminate` are missing, empty or a Boolean, and `sample_interval`, 500 where
-- it is missing, is a number that is not above the log interval.
pub get_all_gm_accepts : (a : GmAction) → ((get_all_gm_config_keys a).1 ≡ true) ↔ IsMonitorable a
unfolding get_all_gm_config_keys
get_all_gm_accepts a =
    let all =
      (after (after (after Metrics-Checks force-Checks) terminate-Checks) sampling-Checks).tests a
        true in
    (
      λ h.
          let (u, ok) = all.0 h in
          let (rest, sampled) = ok in
          let (rest2, terminate) = rest in
          let (metrics, force) = rest2 in
          let (metrics2, power) = metrics in
          let (metrics3, fan) = metrics2 in
          let (metrics4, mem_clock) = metrics3 in
          record {
            temp = metrics4.0;
            clock = metrics4.1;
            mem_clock = mem_clock;
            fan = fan;
            power = power;
            force = force;
            terminate = terminate;
            sampled = sampled;
          },
      λ k. all.1 (
        refl,
        (((((((k.temp, k.clock), k.mem_clock), k.fan), k.power), k.force), k.terminate), k.sampled),
      ),
    )
