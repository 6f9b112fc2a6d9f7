-- ===== src/Gm/Checks.antt =====
-- What each step of `get_all_gm_config_keys` of gm.so/src/action.cpp checks.
use mathlib.Core.Path.{subst}
use rocm_validation_suite.Prelude.{
  ℕ, ◌≡◌, refl, sym, ◌∙◌, ◌↔◌, Bool, true, false, not, Text, codes, Map, ◌==◌, arith,
}
use rocm_validation_suite.Action.Getters.{IsBoolKey, bool_code}
use rocm_validation_suite.Gm.Config.{
  GmAction, object, read_temp, read_clock, read_mem_clock, read_fan, read_power, read_force,
  read_terminate,
}
use rocm_validation_suite.Gm.Bounds.{IsBoundsKey, bounds_fine}

-- A step leaves the properties and the log interval, and clears `sts` exactly when its keys are not
-- as they should be.
pub record Checks (Ok : Map Text → ℕ → Type 0) (f : GmAction × Bool → GmAction × Bool)
    : Type 0 where
  pub keeps : (a : GmAction) (b : Bool) → (f (a, b)).0.base.property ≡ a.base.property
  pub logs :
      (a : GmAction) (b : Bool)
      → (f (a, b)).0.base.property_log_interval ≡ a.base.property_log_interval
  pub tests :
      (a : GmAction) (b : Bool)
      → ((f (a, b)).1 ≡ true) ↔ ((b ≡ true) × Ok a.base.property a.base.property_log_interval)

pub object_keeps :
    (bad : Bool) (msg : Text) (a : GmAction) (b : Bool)
    → (object bad msg (a, b)).0.base.property ≡ a.base.property
unfolding object
object_keeps true msg a b = refl
object_keeps false msg a b = refl

pub object_logs :
    (bad : Bool) (msg : Text) (a : GmAction) (b : Bool)
    → (object bad msg (a, b)).0.base.property_log_interval ≡ a.base.property_log_interval
unfolding object
object_logs true msg a b = refl
object_logs false msg a b = refl

pub object_sampled :
    (bad : Bool) (msg : Text) (a : GmAction) (b : Bool)
    → (object bad msg (a, b)).0.sample_interval ≡ a.sample_interval
unfolding object
object_sampled true msg a b = refl
object_sampled false msg a b = refl

pub object_tests :
    (bad : Bool) (msg : Text) (a : GmAction) (b : Bool) (P : Type 0)
    → (bad ≡ false) ↔ P
    → ((object bad msg (a, b)).1 ≡ true) ↔ ((b ≡ true) × P)
unfolding object
object_tests true msg a b P code = (λ h. absurd cc, λ k. absurd (let e = code.1 k.1 in cc))
object_tests false msg a b P code = (λ h. (h, code.0 refl), λ k. k.0)

-- A code that is 0, as the condition of a message.
pub not_zero : {P : Type 0} (n : ℕ) → (n ≡ 0) ↔ P → (not (n == 0) ≡ false) ↔ P
not_zero n code = (λ h. code.0 (ground arith), λ k. ground (arith, code.1 k))

pub temp-Checks : Checks (λ m log. IsBoundsKey (codes "temp") m) read_temp
unfolding read_temp
temp-Checks = record {
  keeps = λ a b. object_keeps _ _ _ b;
  logs = λ a b. object_logs _ _ _ b;
  tests = λ a b. object_tests _ _ _ b _ (bounds_fine (codes "temp") a.base a.bound_temp);
}

pub clock-Checks : Checks (λ m log. IsBoundsKey (codes "clock") m) read_clock
unfolding read_clock
clock-Checks = record {
  keeps = λ a b. object_keeps _ _ _ b;
  logs = λ a b. object_logs _ _ _ b;
  tests = λ a b. object_tests _ _ _ b _ (bounds_fine (codes "clock") a.base a.bound_clock);
}

pub mem_clock-Checks : Checks (λ m log. IsBoundsKey (codes "mem_clock") m) read_mem_clock
unfolding read_mem_clock
mem_clock-Checks = record {
  keeps = λ a b. object_keeps _ _ _ b;
  logs = λ a b. object_logs _ _ _ b;
  tests = λ a b. object_tests _ _ _ b _ (bounds_fine (codes "mem_clock") a.base a.bound_mem_clock);
}

pub fan-Checks : Checks (λ m log. IsBoundsKey (codes "fan") m) read_fan
unfolding read_fan
fan-Checks = record {
  keeps = λ a b. object_keeps _ _ _ b;
  logs = λ a b. object_logs _ _ _ b;
  tests = λ a b. object_tests _ _ _ b _ (bounds_fine (codes "fan") a.base a.bound_fan);
}

pub power-Checks : Checks (λ m log. IsBoundsKey (codes "power") m) read_power
unfolding read_power
power-Checks = record {
  keeps = λ a b. object_keeps _ _ _ b;
  logs = λ a b. object_logs _ _ _ b;
  tests = λ a b. object_tests _ _ _ b _ (bounds_fine (codes "power") a.base a.bound_power);
}

pub force-Checks : Checks (λ m log. IsBoolKey (codes "force") m) read_force
unfolding read_force
force-Checks = record {
  keeps = λ a b. object_keeps _ _ _ b;
  logs = λ a b. object_logs _ _ _ b;
  tests = λ a b.
      object_tests _ _ _ b _ (not_zero _ (bool_code (codes "force") a.prop_force false a.base));
}

pub terminate-Checks : Checks (λ m log. IsBoolKey (codes "terminate") m) read_terminate
unfolding read_terminate
terminate-Checks = record {
  keeps = λ a b. object_keeps _ _ _ b;
  logs = λ a b. object_logs _ _ _ b;
  tests = λ a b.
      object_tests _ _ _ b _
        (not_zero _ (bool_code (codes "terminate") a.prop_terminate false a.base));
}

module _ {P Q : Map Text → ℕ → Type 0} {f g : GmAction × Bool → GmAction × Bool} where
  pub after : Checks P f → Checks Q g → Checks (λ m log. P m log × Q m log) (λ s. g (f s))
  after p q = record {
    keeps = λ a b. q.keeps (f (a, b)).0 (f (a, b)).1 ∙ p.keeps a b;
    logs = λ a b. q.logs (f (a, b)).0 (f (a, b)).1 ∙ p.logs a b;
    tests = λ a b.
        let now = q.tests (f (a, b)).0 (f (a, b)).1 in
        let before = p.tests a b in
        let there = λ (ok : Q (f (a, b)).0.base.property (f (a, b)).0.base.property_log_interval).
          subst (λ n. Q a.base.property n) (p.logs a b)
            (subst (λ m. Q m (f (a, b)).0.base.property_log_interval) (p.keeps a b) ok) in
        let back = λ (ok : Q a.base.property a.base.property_log_interval).
          subst (λ m. Q m (f (a, b)).0.base.property_log_interval) (sym (p.keeps a b))
            (subst (λ n. Q a.base.property n) (sym (p.logs a b)) ok) in
        (
          λ h.
              let (mid, last) = now.0 h in
              let (first, ok) = before.0 mid in (first, (ok, there last)),
          λ k. now.1 (before.1 (k.0, k.1.0), back k.1.1),
        );
  }
