-- ===== src/Gm/Report.antt =====
-- What `Worker` of gm.so/src/worker.cpp logs when it starts and when it is stopped. JSON records are
-- left out.
use rocm_validation_suite.Prelude.{
  ℕ, ◌/◌, ◌%◌, ◌^◌, true, List, [], ◌∷◌, ◌++◌, Text, codes, ◌==◌, map, if◌then◌else◌,
}
use rocm_validation_suite.Util.Number.{to_string}
use rocm_validation_suite.Exec.Run.{pos}
use rocm_validation_suite.Gm.Worker.{
  Bound, Gauges, Reading, Flow, Monitor, going, is_exited, row_of, quotient, integer_text,
  monitor_rounds,
}

abbrev pub zeros : Gauges
zeros = record {
  mem_clock = record { value = 0; total = 0; violations = 0 };
  clock = record { value = 0; total = 0; violations = 0 };
  temp = record { value = pos 0; total = pos 0; violations = 0 };
  fan = record { value = 0; total = 0; violations = 0 };
  power = record { value = 0; total = 0; violations = 0 };
}

-- The entries for the devices of `dv_hdl`.
abbrev pub zeroed : List ℕ → List (ℕ × Gauges)
zeroed gpuids = map (λ gpuid. (gpuid, zeros)) gpuids

module _ (c : Monitor) where
  -- The row for a metric that is monitored.
  unfoldable pub bound_rows : ℕ → Text → Bound → List Text
  bound_rows gpuid metric b =
      let row = row_of c gpuid (codes "monitoring " ++ metric) in
      if b.mon_metric
      then (if b.check_bounds
          then row
            ++ (codes " bounds min: "
                ++ (to_string b.min_val ++ (codes "  max: " ++ to_string b.max_val)))
          else row)
        ∷ []
      else []

  -- In the order of the map of bounds.
  unfoldable pub device_rows : ℕ → List Text
  unfolding bound_rows
  device_rows gpuid =
      row_of c gpuid (codes "started")
      ∷ (bound_rows gpuid (codes "clock") c.on_clock
          ++ (bound_rows gpuid (codes "fan") c.on_fan
              ++ (bound_rows gpuid (codes "mem_clock") c.on_mem_clock
                  ++ (bound_rows gpuid (codes "power") c.on_power
                      ++ bound_rows gpuid (codes "temp") c.on_temp))))

  unfoldable pub start_rows : List ℕ → List Text
  unfolding device_rows
  start_rows [] = []
  start_rows (gpuid ∷ gpuids) = device_rows gpuid ++ start_rows gpuids

  unfoldable pub stopped_rows : List (ℕ × Gauges) → List Text
  stopped_rows devices = map (λ d. row_of c d.0 (codes "stopped")) devices

  -- `run`, with the readings until `brun` is cleared: the entries, the flow and the number of rounds.
  unfoldable pub monitor_run : List ℕ → ℕ → List (ℕ → Reading) → List (ℕ × Gauges) × (Flow × ℕ)
  unfolding start_rows stopped_rows
  monitor_run gpuids fan_percentage rounds =
      let started : Flow = record {
        brun = true;
        mode = going;
        fan_percentage = fan_percentage;
        rows = start_rows gpuids;
        callbacks = [];
        stops = [];
      } in
      let r = monitor_rounds c rounds (zeroed gpuids) started 0 in
      let f = r.1.0 in
      let rows = if is_exited f.mode then f.rows else f.rows ++ stopped_rows r.0 in
      (r.0, (record f { rows = rows }, r.1.1))

  -- The two rows of a metric in the report of `stop`.
  unfoldable pub metric_rows : ℕ → Text → Bound → ℕ → Text → List Text
  metric_rows gpuid metric b violations average =
      if b.mon_metric
      then row_of c gpuid (metric ++ (codes " violations " ++ to_string violations))
        ∷ row_of c gpuid (metric ++ (codes " average " ++ average))
        ∷ []
      else []

  abbrev pub temp_rows : ℕ → ℕ → Gauges → List Text
  temp_rows count gpuid g =
      metric_rows gpuid (codes "temp") c.on_temp g.temp.violations
        (integer_text (quotient count g.temp.total) ++ codes "C")

  abbrev pub clock_rows : ℕ → ℕ → Gauges → List Text
  clock_rows count gpuid g =
      metric_rows gpuid (codes "clock") c.on_clock g.clock.violations
        (to_string (g.clock.total / count) ++ codes "MHz")

  abbrev pub mem_clock_rows : ℕ → ℕ → Gauges → List Text
  mem_clock_rows count gpuid g =
      metric_rows gpuid (codes "mem_clock") c.on_mem_clock g.mem_clock.violations
        (to_string (g.mem_clock.total / count) ++ codes "MHz")

  abbrev pub fan_rows : ℕ → ℕ → Gauges → List Text
  fan_rows count gpuid g =
      metric_rows gpuid (codes "fan") c.on_fan g.fan.violations
        (to_string (g.fan.total / count % 2 ^ 32) ++ codes "%")

  -- The texts of the averages of the power, of floats, are given.
  unfoldable pub stop_device : (ℕ → Text) → ℕ → ℕ × Gauges → List Text
  stop_device power_average count (gpuid, g) =
      temp_rows count gpuid g
      ++ (clock_rows count gpuid g
          ++ (mem_clock_rows count gpuid g
              ++ (fan_rows count gpuid g
                  ++ metric_rows gpuid (codes "power") c.on_power g.power.violations
                      (power_average gpuid ++ codes "Watts"))))

  unfoldable pub stop_devices : (ℕ → Text) → ℕ → List (ℕ × Gauges) → List Text
  stop_devices power_average count [] = []
  stop_devices power_average count (d ∷ devices) =
      stop_device power_average count d ++ stop_devices power_average count devices

  -- What `stop` reports, after `count` rounds.
  unfoldable pub stop_rows : (ℕ → Text) → ℕ → List (ℕ × Gauges) → List Text
  stop_rows power_average count devices =
      if count == 0 then [] else stop_devices power_average count devices
