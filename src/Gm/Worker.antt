-- ===== src/Gm/Worker.antt =====
-- `Worker::run` of gm.so/src/worker.cpp: the loop over the devices. What the SMI library answers is
-- given as data. JSON records and the sum of the power, a float, are left out.
use rocm_validation_suite.Prelude.{
  ℕ, zero, suc, ◌+◌, ◌*◌, ◌/◌, ◌%◌, ◌^◌, Bool, true, false, not, ◌&&◌, ◌||◌, Option, none, some,
  List, [], ◌∷◌, ◌++◌, Text, codes, ◌==◌, ltb, leb, if◌then◌else◌,
}
use rocm_validation_suite.Util.Number.{to_string}
use rocm_validation_suite.Exec.Run.{ℤ, pos, negsuc}

-- `Metric_bound`
pub record Bound : Type 0 where
  pub mon_metric : Bool
  pub check_bounds : Bool
  pub max_val : ℕ
  pub min_val : ℕ

-- The fields of `Metric_value`, `Metric_avg` and `Metric_violation` for one metric.
pub record Gauge (V : Type 0) : Type 0 where
  pub value : V
  pub total : V
  pub violations : ℕ

-- The entries of one device in `met_value`, `met_avg` and `met_violation`.
pub record Gauges : Type 0 where
  pub mem_clock : Gauge ℕ
  pub clock : Gauge ℕ
  pub temp : Gauge ℤ
  pub fan : Gauge ℕ
  pub power : Gauge ℕ

-- What the library answers for a device: frequencies in Hz, the temperature in thousandths where
-- there is one, whether both questions for the fan succeed and what they leave in `speed` and
-- `max_speed`, and `socket_power`.
pub record Reading : Type 0 where
  pub mem_hz : ℕ
  pub clock_hz : ℕ
  pub temperature : Option ℤ
  pub fan_known : Bool
  pub speed : ℕ
  pub max_speed : ℕ
  pub socket_power : ℕ

-- How the loop over the devices stands: it goes on, was left by `break`, or the process has ended.
pub data Mode : Type 0 where
  going broken exited : Mode

-- What the devices share; `stops` are the calls of `rvs::lp::Stop`.
pub record Flow : Type 0 where
  pub brun : Bool
  pub mode : Mode
  pub fan_percentage : ℕ
  pub rows : List Text
  pub callbacks : List Text
  pub stops : List ℕ

-- The settings; `power` is the variable of that name in `run`, which nothing sets.
pub record Monitor : Type 0 where
  pub action_name : Text
  pub term : Bool
  pub force : Bool
  pub on_mem_clock : Bound
  pub on_clock : Bound
  pub on_temp : Bound
  pub on_fan : Bound
  pub on_power : Bound
  pub power : ℕ

abbrev pub is_going : Mode → Bool
is_going going = true
is_going broken = false
is_going exited = false

abbrev negative : ℕ → ℤ
negative zero = pos zero
negative (suc n) = negsuc n

-- A division cuts towards 0.
unfoldable pub quotient : ℕ → ℤ → ℤ
quotient d (pos n) = pos (n / d)
quotient d (negsuc n) = negative (suc n / d)

unfoldable pub degrees : ℤ → ℤ
unfolding quotient
degrees temperature = quotient 1000 temperature

unfoldable pub sub_nat : ℕ → ℕ → ℤ
sub_nat m zero = pos m
sub_nat zero (suc n) = negsuc n
sub_nat (suc m) (suc n) = sub_nat m n

infixl 60 ◌+ℤ◌
unfoldable pub ◌+ℤ◌ : ℤ → ℤ → ℤ
unfolding sub_nat
pos m +ℤ pos n = pos (m + n)
pos m +ℤ negsuc n = sub_nat m (suc n)
negsuc m +ℤ pos n = sub_nat n (suc m)
negsuc m +ℤ negsuc n = negsuc (suc (m + n))

unfoldable pub integer_text : ℤ → Text
integer_text (pos n) = to_string n
integer_text (negsuc n) = codes "-" ++ to_string (suc n)

abbrev pub within : Bound → ℕ → Bool
within b x = leb b.min_val x && leb x b.max_val

abbrev pub within_signed : Bound → ℤ → Bool
within_signed b (pos n) = within b n
within_signed b (negsuc n) = false

-- Whether a value is reported.
abbrev pub violates : Bound → Bool → Bool
violates b inside = not inside && b.check_bounds

-- The percentage, which stays where one of the speeds is 0.
unfoldable pub percentage : Reading → ℕ → ℕ
percentage r old =
    if not (r.speed == 0) && not (r.max_speed == 0)
    then r.speed * 100 / r.max_speed % 2 ^ 32
    else old

abbrev pub ends_round : Mode → Mode
ends_round going = going
ends_round broken = going
ends_round exited = exited

abbrev pub is_exited : Mode → Bool
is_exited going = false
is_exited broken = false
is_exited exited = true

module _ (c : Monitor) where
  unfoldable pub row_of : ℕ → Text → Text
  row_of gpuid text =
      codes "[" ++ (c.action_name ++ (codes "] gm " ++ (to_string gpuid ++ (codes " " ++ text))))

  -- The row and the callback of a violation, and the end that `terminate` asks for; `leaves` where a
  -- `break` follows.
  unfoldable pub breach : Bool → Text → Flow → Flow
  breach leaves msg f =
      let told = record f { rows = f.rows ++ msg ∷ []; callbacks = f.callbacks ++ msg ∷ [] } in
      if not c.term
      then told
      else if c.force
      then record told { stops = f.stops ++ 1 ∷ []; mode = exited }
      else record told {
        stops = f.stops ++ 0 ∷ [];
        brun = false;
        mode = if leaves then broken else f.mode;
      }

  -- A value that was read. After the process has ended no field is read any more.
  unfoldable pub note :
      {V : Type 0} → Bound → Bool → Bool → Text → V → V → Gauge V → Flow → Gauge V × Flow
  note b leaves inside msg value total g f =
      if violates b inside
      then (
        record { value = value; total = total; violations = g.violations + 1 },
        breach leaves msg f,
      )
      else (record { value = value; total = total; violations = g.violations }, f)

  -- A metric that is monitored, while the loop goes on.
  unfoldable pub gate : {V : Type 0} → Bool → Gauge V × Flow → Gauge V → Flow → Gauge V × Flow
  gate monitored noted g f = if is_going f.mode && monitored then noted else (g, f)

  unfoldable pub sample_mem_clock : ℕ → Reading → Gauge ℕ → Flow → Gauge ℕ × Flow
  sample_mem_clock gpuid r g f =
      let mhz = r.mem_hz / 1000000 in
      gate c.on_mem_clock.mon_metric
        (note c.on_mem_clock false (within c.on_mem_clock mhz)
          (row_of gpuid (codes "mem_clock bounds violation " ++ (to_string mhz ++ codes "MHz"))) mhz
          ((g.total + mhz) % 2 ^ 64) g f)
        g f

  unfoldable pub sample_clock : ℕ → Reading → Gauge ℕ → Flow → Gauge ℕ × Flow
  sample_clock gpuid r g f =
      let mhz = r.clock_hz / 1000000 % 2 ^ 32 in
      gate c.on_clock.mon_metric
        (note c.on_clock false (within c.on_clock mhz)
          (row_of gpuid (codes "clock bounds violation " ++ (to_string mhz ++ codes "MHz"))) mhz
          ((g.total + mhz) % 2 ^ 64) g f)
        g f

  unfoldable pub note_temp : ℕ → Option ℤ → Gauge ℤ → Flow → Gauge ℤ × Flow
  note_temp gpuid none g f =
      (g, record f { rows = f.rows ++ row_of gpuid (codes "temp Not available") ∷ [] })
  note_temp gpuid (some temperature) g f =
      let temper = degrees temperature in
      note c.on_temp false (within_signed c.on_temp temper)
        (row_of gpuid (codes "temp bounds violation " ++ (integer_text temper ++ codes "C"))) temper
        (g.total +ℤ temper) g f

  unfoldable pub sample_temp : ℕ → Reading → Gauge ℤ → Flow → Gauge ℤ × Flow
  sample_temp gpuid r g f = gate c.on_temp.mon_metric (note_temp gpuid r.temperature g f) g f

  unfoldable pub note_fan : ℕ → Reading → ℕ → Gauge ℕ → Flow → Gauge ℕ × Flow
  note_fan gpuid r p g f =
      let f' = record f { fan_percentage = p } in
      if r.fan_known
      then note c.on_fan true (within c.on_fan p)
          (row_of gpuid (codes "fan bounds violation " ++ (to_string p ++ codes "%"))) p
          ((g.total + p) % 2 ^ 64) g f'
      else (g, record f' { rows = f.rows ++ row_of gpuid (codes "fan Not available") ∷ [] })

  unfoldable pub sample_fan : ℕ → Reading → Gauge ℕ → Flow → Gauge ℕ × Flow
  sample_fan gpuid r g f =
      gate c.on_fan.mon_metric (note_fan gpuid r (percentage r f.fan_percentage) g f) g f

  -- The bounds are those of the variable `power`, in millionths as a `uint32_t`.
  unfoldable pub sample_power : ℕ → Reading → Gauge ℕ → Flow → Gauge ℕ × Flow
  sample_power gpuid r g f =
      let inside = not (
        ltb c.power (c.on_power.min_val * 1000000 % 2 ^ 32)
        || ltb (c.on_power.max_val * 1000000 % 2 ^ 32) c.power) in
      gate c.on_power.mon_metric
        (note c.on_power false inside
          (row_of gpuid (
            codes "power bounds violation "
            ++ (to_string (c.power / 1000000 % 2 ^ 32) ++ codes "Watts")))
          (r.socket_power % 2 ^ 32) g.total g f)
        g f

  -- One device.
  unfoldable pub sample : ℕ → Reading → Gauges → Flow → Gauges × Flow
  sample gpuid r g f =
      let m = sample_mem_clock gpuid r g.mem_clock f in
      let k = sample_clock gpuid r g.clock m.1 in
      let t = sample_temp gpuid r g.temp k.1 in
      let n = sample_fan gpuid r g.fan t.1 in
      let p = sample_power gpuid r g.power n.1 in
      (record { mem_clock = m.0; clock = k.0; temp = t.0; fan = n.0; power = p.0 }, p.1)

  -- The loop over the devices from one on; a reading for each place in it.
  unfoldable pub sample_devices :
      (ℕ → Reading) → ℕ → List (ℕ × Gauges) → Flow → List (ℕ × Gauges) × Flow
  sample_devices readings i [] f = ([], f)
  sample_devices readings i ((gpuid, g) ∷ devices) f =
      let here = sample gpuid (readings i) g f in
      let rest = sample_devices readings (suc i) devices here.1 in
      ((gpuid, here.0) ∷ rest.0, rest.1)

  -- `while (brun)`, as long as there are readings, with the number of rounds.
  unfoldable pub monitor_rounds :
      List (ℕ → Reading) → List (ℕ × Gauges) → Flow → ℕ → List (ℕ × Gauges) × (Flow × ℕ)
  monitor_rounds [] devices f count = (devices, (f, count))
  monitor_rounds (readings ∷ rounds) devices f count =
      let r = sample_devices readings 0 devices f in
      let on = monitor_rounds rounds r.0 (record r.1 { mode = ends_round r.1.mode }) (count + 1) in
      if f.brun && not (is_exited f.mode) then on else (devices, (f, count))
