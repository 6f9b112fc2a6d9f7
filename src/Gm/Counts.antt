-- ===== src/Gm/Counts.antt =====
-- What the monitor of gm.so/src/worker.cpp counts.
use rocm_validation_suite.Prelude.{
  ℕ, zero, suc, ◌+◌, ◌/◌, ◌%◌, ◌^◌, ◌≡◌, refl, inl, inr, Bool, true, false, ◌&&◌, Option, none,
  some, List, [], ◌∷◌, Text, arith, Bool-cases, if◌then◌else◌,
}
use rocm_validation_suite.Exec.Run.{ℤ}
use rocm_validation_suite.Gm.Worker.{
  Bound, Gauge, Gauges, Reading, Flow, Monitor, going, degrees, within, within_signed, violates,
  breach, note, gate, note_fan, sample_mem_clock, sample_clock, note_temp, sample_temp, percentage,
  sample_fan, sample_power,
}

-- A flow that goes on.
abbrev pub IsOn : Flow → Type 0
IsOn f = (f.brun ≡ true) × (f.mode ≡ going)

abbrev pub one_if : Bool → ℕ
one_if b = if b then 1 else 0

-- The three counters of the device at a place.
abbrev pub counters : ℕ → List (ℕ × Gauges) → ℕ × ℕ × ℕ
counters k [] = (0, 0, 0)
counters zero (d ∷ devices) = (d.1.mem_clock.violations, d.1.clock.violations, d.1.temp.violations)
counters (suc k) (d ∷ devices) = counters k devices

-- The number of violations in the readings of the place k.
abbrev pub outs : (Reading → Bool) → ℕ → List (ℕ → Reading) → ℕ
outs out k [] = 0
outs out k (readings ∷ rounds) = one_if (out (readings k)) + outs out k rounds

module _ (c : Monitor) where
  -- Whether a reading of a device is a violation.
  abbrev pub mem_clock_out : Reading → Bool
  mem_clock_out r =
      c.on_mem_clock.mon_metric
      && violates c.on_mem_clock (within c.on_mem_clock (r.mem_hz / 1000000))

  abbrev pub clock_out : Reading → Bool
  clock_out r =
      c.on_clock.mon_metric
      && violates c.on_clock (within c.on_clock (r.clock_hz / 1000000 % 2 ^ 32))

  abbrev temp_violates : Option ℤ → Bool
  temp_violates none = false
  temp_violates (some temperature) =
      violates c.on_temp (within_signed c.on_temp (degrees temperature))

  abbrev pub temp_out : Reading → Bool
  temp_out r = c.on_temp.mon_metric && temp_violates r.temperature

  -- The counters of a device raised by its reading.
  abbrev pub raised : Reading → ℕ × ℕ × ℕ → ℕ × ℕ × ℕ
  raised r n =
      (n.0 + one_if (mem_clock_out r), n.1 + one_if (clock_out r), n.2 + one_if (temp_out r))

  module _ (calm : c.term ≡ false) where
    breach-IsOn : (leaves : Bool) (msg : Text) (f : Flow) → IsOn f → IsOn (breach c leaves msg f)
    unfolding breach
    breach-IsOn leaves msg f on = rw calm on

    note-IsOn :
        {V : Type 0} (b : Bound) (leaves inside : Bool) (msg : Text) (value total : V) (g : Gauge V)
        (f : Flow)
        → IsOn f
        → IsOn (note c b leaves inside msg value total g f).1
    unfolding note
    note-IsOn b leaves inside msg value total g f on = elim (Bool-cases (violates b inside)) [
      | inl out ↦ rw out (breach-IsOn leaves msg f on)
      | inr fine ↦ rw fine on
    ]

    note_violations :
        {V : Type 0} (b : Bound) (leaves inside : Bool) (msg : Text) (value total : V) (g : Gauge V)
        (f : Flow)
        → (note c b leaves inside msg value total g f).0.violations
          ≡ g.violations + one_if (violates b inside)
    unfolding note
    note_violations b leaves inside msg value total g f = elim (Bool-cases (violates b inside)) [
      | inl out ↦ rw out refl
      | inr fine ↦ rw fine (omega arith)
    ]

    gate_lem :
        {V : Type 0} (monitored out : Bool) (r : Gauge V × Flow) (g : Gauge V) (f : Flow)
        → IsOn f
        → IsOn r.1
        → r.0.violations ≡ g.violations + one_if out
        → IsOn (gate c monitored r g f).1
          × ((gate c monitored r g f).0.violations ≡ g.violations + one_if (monitored && out))
    unfolding gate
    gate_lem true out r g f on on' e = rw on.1 (on', e)
    gate_lem false out r g f on on' e = rw on.1 ((on.0, refl), omega arith)

    pub mem_clock_lem :
        (id : ℕ) (r : Reading) (g : Gauge ℕ) (f : Flow)
        → IsOn f
        → IsOn (sample_mem_clock c id r g f).1
          × ((sample_mem_clock c id r g f).0.violations ≡ g.violations + one_if (mem_clock_out r))
    unfolding sample_mem_clock
    mem_clock_lem id r g f on =
        gate_lem c.on_mem_clock.mon_metric _ _ g f on
          (note-IsOn c.on_mem_clock false _ _ _ _ g f on)
          (note_violations c.on_mem_clock false _ _ _ _ g f)

    pub clock_lem :
        (id : ℕ) (r : Reading) (g : Gauge ℕ) (f : Flow)
        → IsOn f
        → IsOn (sample_clock c id r g f).1
          × ((sample_clock c id r g f).0.violations ≡ g.violations + one_if (clock_out r))
    unfolding sample_clock
    clock_lem id r g f on =
        gate_lem c.on_clock.mon_metric _ _ g f on (note-IsOn c.on_clock false _ _ _ _ g f on)
          (note_violations c.on_clock false _ _ _ _ g f)

    note_temp_lem :
        (id : ℕ) (o : Option ℤ) (g : Gauge ℤ) (f : Flow)
        → IsOn f
        → IsOn (note_temp c id o g f).1
          × ((note_temp c id o g f).0.violations ≡ g.violations + one_if (temp_violates o))
    unfolding note_temp
    note_temp_lem id none g f on = (on, omega arith)
    note_temp_lem id (some temperature) g f on =
        (note-IsOn c.on_temp false _ _ _ _ g f on, note_violations c.on_temp false _ _ _ _ g f)

    pub temp_lem :
        (id : ℕ) (r : Reading) (g : Gauge ℤ) (f : Flow)
        → IsOn f
        → IsOn (sample_temp c id r g f).1
          × ((sample_temp c id r g f).0.violations ≡ g.violations + one_if (temp_out r))
    unfolding sample_temp
    temp_lem id r g f on =
        let k = note_temp_lem id r.temperature g f on in
        gate_lem c.on_temp.mon_metric (temp_violates r.temperature)
          (note_temp c id r.temperature g f) g f on k.0 k.1

    note_fan-IsOn :
        (id p : ℕ) (r : Reading) (g : Gauge ℕ) (f : Flow) → IsOn f → IsOn (note_fan c id r p g f).1
    unfolding note_fan
    note_fan-IsOn id p r g f on = elim (Bool-cases r.fan_known) [
      | inl known ↦
          rw known (note-IsOn c.on_fan true _ _ _ _ g (record f { fan_percentage = p }) on)
      | inr unknown ↦ rw unknown on
    ]

    gate-IsOn :
        {V : Type 0} (monitored : Bool) (r : Gauge V × Flow) (g : Gauge V) (f : Flow)
        → IsOn f
        → IsOn r.1
        → IsOn (gate c monitored r g f).1
    unfolding gate
    gate-IsOn true r g f on on' = rw on.1 on'
    gate-IsOn false r g f on on' = rw on.1 (on.0, refl)

    pub fan-IsOn :
        (id : ℕ) (r : Reading) (g : Gauge ℕ) (f : Flow) → IsOn f → IsOn (sample_fan c id r g f).1
    unfolding sample_fan
    fan-IsOn id r g f on =
        gate-IsOn c.on_fan.mon_metric _ g f on
          (note_fan-IsOn id (percentage r f.fan_percentage) r g f on)

    pub power-IsOn :
        (id : ℕ) (r : Reading) (g : Gauge ℕ) (f : Flow) → IsOn f → IsOn (sample_power c id r g f).1
    unfolding sample_power
    power-IsOn id r g f on =
        gate-IsOn c.on_power.mon_metric _ g f on (note-IsOn c.on_power false _ _ _ _ g f on)
