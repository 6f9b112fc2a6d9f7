-- ===== src/Gm/Examples.antt =====
-- Tests and witnesses for gm.so/src/worker.cpp.
use rocm_validation_suite.Prelude.{
  ℕ, ◌*◌, ◌≡◌, refl, Bool, true, false, some, List, [], ◌∷◌, codes, arith, map, ◌==◌, if◌then◌else◌,
  Text, ◌++◌,
}
use rocm_validation_suite.Exec.Run.{ℤ, pos, negsuc}
use rocm_validation_suite.Gm.Worker.{
  Bound, Gauge, Gauges, Reading, Flow, Monitor, going, row_of, monitor_rounds,
}
use rocm_validation_suite.Gm.Counts.{outs}
use mathlib.Core.List.{Memᴰ}
use rocm_validation_suite.Util.Number.{to_string}
use rocm_validation_suite.Gm.Report.{monitor_run, stop_rows}
use rocm_validation_suite.Gm.Reported.{of_mem_clock, metric, out, stop_counts}
use rocm_validation_suite.Gm.Blind.{unpowered, power_unseen}

abbrev up_to : ℕ → Bound
up_to n = record { mon_metric = true; check_bounds = true; max_val = n; min_val = 1 }

abbrev settings : Bool → Monitor
settings term = record {
  action_name = codes "act";
  term = term;
  force = false;
  on_mem_clock = up_to 800;
  on_clock = up_to 1500;
  on_temp = up_to 30;
  on_fan = up_to 50;
  on_power = up_to 150;
  power = 0;
}

abbrev gauge : {V : Type 0} → V → Gauge V
gauge v = record { value = v; total = v; violations = 0 }

abbrev gauges : Gauges
gauges = record {
  mem_clock = gauge 0;
  clock = gauge 0;
  temp = gauge (pos 0);
  fan = gauge 0;
  power = gauge 0;
}

abbrev devices : List (ℕ × Gauges)
devices = (3254, gauges) ∷ (50599, gauges) ∷ []

abbrev reading : ℕ → ℤ → Reading
reading mhz milli = record {
  mem_hz = mhz * 1000000;
  clock_hz = 1600000000;
  temperature = some milli;
  fan_known = true;
  speed = 100;
  max_speed = 255;
  socket_power = 90;
}

abbrev rounds : List (ℕ → Reading)
rounds =
    (λ i. if i == 0 then reading 500 (pos 29999) else reading 900 (negsuc 4999))
    ∷ (λ i. if i == 0 then reading 501 (pos 31000) else reading 901 (pos 25000))
    ∷ []

abbrev gpuids : List ℕ
gpuids = 3254 ∷ 50599 ∷ []

abbrev averages : ℕ → Text
averages gpuid = codes "90"

abbrev started : Flow
started = record {
  brun = true;
  mode = going;
  fan_percentage = 0;
  rows = [];
  callbacks = [];
  stops = [];
}

-- The second device: the memory clock is too high in both rounds.
stop_counts_example :
    Memᴰ
      (row_of (settings false) 50599 (
        metric of_mem_clock
        ++ (codes " violations " ++ to_string (outs (out (settings false) of_mem_clock) 1 rounds))))
      (stop_rows
        (settings false)
        averages
        (monitor_run (settings false) gpuids 0 rounds).1.1
        (monitor_run (settings false) gpuids 0 rounds).0)
stop_counts_example =
    stop_counts (settings false) refl of_mem_clock gpuids 0 rounds 1 50599 averages refl
      (omega arith) refl

two_violations : outs (out (settings false) of_mem_clock) 1 rounds ≡ 2
two_violations = refl

power_unseen_example :
    (monitor_rounds
      (settings true)
      (map (λ readings k. unpowered (readings k)) rounds)
      devices
      started
      0).1
    ≡ (monitor_rounds (settings true) rounds devices started 0).1
power_unseen_example = power_unseen (settings true) rounds devices started 0
