-- ===== src/Action/Valid.antt =====
-- Which properties `get_all_common_config_keys` of src/rvsactionbase.cpp accepts.
use mathlib.Core.Path.{subst}
use rocm_validation_suite.Prelude.{
  ℕ, ◌≡◌, refl, ◌⊎◌, ◌↔◌, inl, inr, Bool, true, false, none, some, Text, codes, Map, find, arith,
  Bool-cases, Option-cases, ap, sym, ◌∙◌,
}
use rocm_validation_suite.Action.Property.{Action, property_get_string}
use rocm_validation_suite.Action.Keys.{
  read_json_flag, read_device, read_device_id, read_device_index, settle_all, read_parallel,
  read_count, read_wait, read_duration, read_log_interval, report, has_duration, read_keys,
  read_timing, get_all_common_config_keys,
}
use rocm_validation_suite.Action.Getters.{
  IsListKey, IsIntKey, IsBoolKey, int_code, list_code, bool_code,
}

-- A step leaves the properties and the module's name, and clears `bsts` exactly when its keys are
-- not as they should be.
record Checks (Ok : Map Text → Type 0) (f : Action × Bool → Action × Bool) : Type 0 where
  keeps : (a : Action) (b : Bool) → (f (a, b)).0.property ≡ a.property
  names : (a : Action) (b : Bool) → (f (a, b)).0.module_name ≡ a.module_name
  tests : (a : Action) (b : Bool) → ((f (a, b)).1 ≡ true) ↔ ((b ≡ true) × Ok a.property)

report_keeps :
    (sts : ℕ) (msg : Text) (a : Action) (b : Bool) → (report sts msg (a, b)).0.property ≡ a.property
unfolding report
report_keeps sts msg a b = ground arith

report_names :
    (sts : ℕ) (msg : Text) (a : Action) (b : Bool)
    → (report sts msg (a, b)).0.module_name ≡ a.module_name
unfolding report
report_names sts msg a b = ground arith

report_tests :
    (sts : ℕ) (msg : Text) (a : Action) (b : Bool) (P : Type 0)
    → (sts ≡ 0) ↔ P
    → ((report sts msg (a, b)).1 ≡ true) ↔ ((b ≡ true) × P)
unfolding report
report_tests sts msg a b P code =
    (λ h. (ground arith, code.0 (ground arith)), λ k. ground (arith, code.1 k.1, k.0))

abbrev Free : Map Text → Type 0
Free m = Unit

device-Checks : Checks (IsListKey (codes "device")) read_device
unfolding read_device
device-Checks = record {
  keeps = λ a b. report_keeps _ _ _ b;
  names = λ a b. report_names _ _ _ b;
  tests = λ a b.
      report_tests _ _ _ b _ (list_code (codes "device") a.property_device a.property_device_all a);
}

device_id-Checks : Checks (IsIntKey (codes "deviceid")) read_device_id
unfolding read_device_id
device_id-Checks = record {
  keeps = λ a b. report_keeps _ _ _ b;
  names = λ a b. report_names _ _ _ b;
  tests = λ a b. report_tests _ _ _ b _ (int_code 16 (codes "deviceid") a.property_device_id 0 a);
}

parallel-Checks : Checks (IsBoolKey (codes "parallel")) read_parallel
unfolding read_parallel
parallel-Checks = record {
  keeps = λ a b. report_keeps _ _ _ b;
  names = λ a b. report_names _ _ _ b;
  tests = λ a b. report_tests _ _ _ b _ (bool_code (codes "parallel") a.property_parallel false a);
}

count-Checks : Checks (IsIntKey (codes "count")) read_count
unfolding read_count
count-Checks = record {
  keeps = λ a b. report_keeps _ _ _ b;
  names = λ a b. report_names _ _ _ b;
  tests = λ a b. report_tests _ _ _ b _ (int_code 64 (codes "count") a.property_count 1 a);
}

duration-Checks : Checks (IsIntKey (codes "duration")) read_duration
unfolding read_duration
duration-Checks = record {
  keeps = λ a b. report_keeps _ _ _ b;
  names = λ a b. report_names _ _ _ b;
  tests =
      λ a b. report_tests _ _ _ b _ (int_code 64 (codes "duration") a.property_duration 10000 a);
}

log_interval-Checks : Checks (IsIntKey (codes "log_interval")) read_log_interval
unfolding read_log_interval
log_interval-Checks = record {
  keeps = λ a b. report_keeps _ _ _ b;
  names = λ a b. report_names _ _ _ b;
  tests = λ a b.
      report_tests _ _ _ b _ (int_code 64 (codes "log_interval") a.property_log_interval 1000 a);
}

wait-Checks : Checks (IsIntKey (codes "wait")) read_wait
unfolding read_wait
wait-Checks = record {
  keeps = λ a b. ground arith;
  names = λ a b. ground arith;
  tests = λ a b.
      let code = int_code 64 (codes "wait") a.property_wait 500 a in
      (λ h. (ground arith, code.0 (ground arith)), λ k. ground (arith, code.1 k.1, k.0));
}

json-Checks : Checks Free read_json_flag
unfolding read_json_flag
json-Checks = record {
  keeps = λ a b. ground arith;
  names = λ a b. ground arith;
  tests = λ a b. (λ h. (ground arith, tt), λ k. ground (arith, k.0));
}

device_index-Checks : Checks Free read_device_index
unfolding read_device_index
device_index-Checks = record {
  keeps = λ a b. ground arith;
  names = λ a b. ground arith;
  tests = λ a b. (λ h. (ground arith, tt), λ k. ground (arith, k.0));
}

settle-Checks : Checks Free settle_all
unfolding settle_all
settle-Checks = record {
  keeps = λ a b. ground arith;
  names = λ a b. ground arith;
  tests = λ a b. (λ h. (ground arith, tt), λ k. ground (arith, k.0));
}

module _ {P Q : Map Text → Type 0} {f g : Action × Bool → Action × Bool} where
  after : Checks P f → Checks Q g → Checks (λ m. P m × Q m) (λ s. g (f s))
  after p q = record {
    keeps = λ a b. q.keeps (f (a, b)).0 (f (a, b)).1 ∙ p.keeps a b;
    names = λ a b. q.names (f (a, b)).0 (f (a, b)).1 ∙ p.names a b;
    tests = λ a b.
        let now = q.tests (f (a, b)).0 (f (a, b)).1 in
        let before = p.tests a b in
        (
          λ h.
              let (mid, last) = now.0 h in
              let (first, ok) = before.0 mid in (first, (ok, subst Q (p.keeps a b) last)),
          λ k. now.1 (before.1 (k.0, k.1.0), subst Q (sym (p.keeps a b)) k.1.1),
        );
  }

-- The keys that every module reads, as the steps nest.
abbrev Common : Map Text → Type 0
Common m =
    ((((((Free m × IsListKey (codes "device") m) × IsIntKey (codes "deviceid") m) × Free m)
          × Free m)
        × IsBoolKey (codes "parallel") m)
      × IsIntKey (codes "count") m)
    × IsIntKey (codes "wait") m

keys-Checks : Checks Common (λ s. read_wait (
    read_count (
      read_parallel
        (settle_all (read_device_index (read_device_id (read_device (read_json_flag s))))))))
keys-Checks =
    after
      (after
        (after
          (after
            (after (after (after json-Checks device-Checks) device_id-Checks) device_index-Checks)
            settle-Checks)
          parallel-Checks)
        count-Checks)
      wait-Checks

-- The keys of an action's `property` are as `get_all_common_config_keys` wants them.
pub record IsConfigured (a : Action) : Type 0 where
  pub named : (v : Text) × (find (codes "name") a.property ≡ some v)
  pub device : IsListKey (codes "device") a.property
  pub device_id : IsIntKey (codes "deviceid") a.property
  pub parallel : IsBoolKey (codes "parallel") a.property
  pub count : IsIntKey (codes "count") a.property
  pub wait : IsIntKey (codes "wait") a.property
  pub timing :
      (has_duration a.module_name ≡ false)
      ⊎ (IsIntKey (codes "duration") a.property × IsIntKey (codes "log_interval") a.property)

timing_test :
    (a : Action) (b : Bool)
    → ((read_timing (a, b)).1 ≡ true) ↔ (
        (b ≡ true)
        × ((has_duration a.module_name ≡ false)
            ⊎ (IsIntKey (codes "duration") a.property
                × IsIntKey (codes "log_interval") a.property)))
unfolding read_timing
timing_test a b = elim (Bool-cases (has_duration a.module_name)) [
  | inr untimed ↦
      ((λ h. (ground (arith, untimed), inl untimed)), (λ k. ground (arith, untimed, k.0)))
  | inl timed ↦
      let both = (after duration-Checks log_interval-Checks).tests a b in
      (
        (λ h. let (first, ok) = both.0 (ground (arith, timed)) in (first, inr ok)),
        (λ k. elim k.1 [
          | inl untimed ↦ absurd (ground (arith, timed, untimed))
          | inr ok ↦ rw timed (both.1 (k.0, ok))
        ]),
      )
]

-- For a named action the result is the last step's.
named_result :
    (a : Action) (v : Text)
    → find (codes "name") a.property ≡ some v
    → get_all_common_config_keys a ≡ read_timing (read_keys (record a { action_name = v }))
unfolding get_all_common_config_keys property_get_string
named_result a v there = ground (arith, there)

keys_result :
    (a : Action)
    → ((read_keys a).0.property ≡ a.property)
      × ((read_keys a).0.module_name ≡ a.module_name)
      × (((read_keys a).1 ≡ true) ↔ ((true ≡ true) × Common a.property))
unfolding read_keys
keys_result a = (keys-Checks.keeps _ true, keys-Checks.names _ true, keys-Checks.tests _ true)

unnamed :
    (a : Action)
    → find (codes "name") a.property ≡ none
    → (get_all_common_config_keys a).1 ≡ true
    → IsConfigured a
unfolding get_all_common_config_keys property_get_string
unnamed a missing h = absurd (ground (arith, missing))

module _ (a : Action) (v : Text) (there : find (codes "name") a.property ≡ some v) where
  abbrev b : Action
  b = record a { action_name = v }

  named_to : (get_all_common_config_keys a).1 ≡ true → IsConfigured a
  named_to h =
      let (keeps, names, test) = keys_result b in
      let (mid, timing) =
        (timing_test (read_keys b).0 (read_keys b).1).0
          (ap (λ r. r.1) (sym (named_result a v there)) ∙ h) in
      let ok = (test.0 mid).1 in
      record {
        named = (v, there);
        device = ok.0.0.0.0.0.0.1;
        device_id = ok.0.0.0.0.0.1;
        parallel = ok.0.0.1;
        count = ok.0.1;
        wait = ok.1;
        timing = rw (keeps, names) at timing;
      }

  named_from : IsConfigured a → (get_all_common_config_keys a).1 ≡ true
  named_from k =
      let (keeps, names, test) = keys_result b in
      ap (λ r. r.1) (named_result a v there)
      ∙ (timing_test (read_keys b).0 (read_keys b).1).1 (
        test.1 (refl, (((((((tt, k.device), k.device_id), tt), tt), k.parallel), k.count), k.wait)),
        rw (keeps, names) k.timing,
      )

-- `get_all_common_config_keys` returns true exactly when the action has a name, a list of devices
-- or "all", and for each other key that is read and decides it no value or a valid one; the keys
-- of the duration count for the modules that have one. "device_index" never decides it.
pub get_all_accepts : (a : Action) → ((get_all_common_config_keys a).1 ≡ true) ↔ IsConfigured a
get_all_accepts a = elim (Option-cases (find (codes "name") a.property)) [
  | inl missing ↦ (unnamed a missing, (λ k. absurd (ground (arith, missing, k.named.1))))
  | inr (v, there) ↦ (named_to a v there, named_from a v there)
]
