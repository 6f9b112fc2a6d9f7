-- ===== src/Gm/Reported.antt =====
-- What the report of `stop` in gm.so/src/worker.cpp says after a run.
use mathlib.Core.Path.{subst}
use mathlib.Core.List.{Memᴰ}
use mathlib.Core.List.Memᴰ
use rocm_validation_suite.Prelude.{
  ℕ, zero, suc, ◌+◌, ◌/◌, ◌≡◌, refl, sym, ap, ◌∙◌, inl, inr, Bool, true, false, not, ◌&&◌, some,
  List, [], ◌∷◌, ◌++◌, get_elem?, length, Text, codes, arith, Bool-cases, ◌==◌, ◌<◌,
}
use rocm_validation_suite.Util.Number.{to_string}
use rocm_validation_suite.Gm.Worker.{
  Bound, Gauges, Reading, Flow, Monitor, going, is_exited, ends_round, quotient, integer_text,
  row_of, sample_devices, monitor_rounds,
}
use rocm_validation_suite.Gm.Report.{
  zeroed, monitor_run, start_rows, metric_rows, temp_rows, clock_rows, stop_device, stop_devices,
  stop_rows,
}
use rocm_validation_suite.Gm.Rounds.{devices-IsOn, round_step, rounds_count}
use rocm_validation_suite.Gm.Counts.{IsOn, counters, outs, mem_clock_out, clock_out, temp_out}
use rocm_validation_suite.Gm.Blind.{ids, ids-devices}

-- The metrics whose violations are followed here.
pub data Counted : Type 0 where
  of_mem_clock of_clock of_temp : Counted

abbrev pub metric : Counted → Text
metric of_mem_clock = codes "mem_clock"
metric of_clock = codes "clock"
metric of_temp = codes "temp"

abbrev pub counter : Counted → Gauges → ℕ
counter of_mem_clock g = g.mem_clock.violations
counter of_clock g = g.clock.violations
counter of_temp g = g.temp.violations

found_device :
    (k gpuid : ℕ) (devices : List (ℕ × Gauges))
    → get_elem? (ids devices) k ≡ some gpuid
    → (g : Gauges) × (get_elem? devices k ≡ some (gpuid, g))
found_device k gpuid [] e = absurd cc
found_device zero gpuid ((id, g) ∷ devices) e = (g, cc)
found_device (suc k) gpuid (d ∷ devices) e = found_device k gpuid devices e

ids-zeroed : (gpuids : List ℕ) → ids (zeroed gpuids) ≡ gpuids
ids-zeroed [] = refl
ids-zeroed (id ∷ gpuids) = ap (λ l. id ∷ l) (ids-zeroed gpuids)

in_zeroed :
    (k gpuid : ℕ) (gpuids : List ℕ) → get_elem? gpuids k ≡ some gpuid → k < length (zeroed gpuids)
in_zeroed k gpuid [] e = absurd cc
in_zeroed zero gpuid (id ∷ gpuids) e = omega arith
in_zeroed (suc k) gpuid (id ∷ gpuids) e = omega (arith, in_zeroed k gpuid gpuids e)

counters_found :
    (k gpuid : ℕ) (g : Gauges) (devices : List (ℕ × Gauges))
    → get_elem? devices k ≡ some (gpuid, g)
    → counters k devices ≡ (g.mem_clock.violations, g.clock.violations, g.temp.violations)
counters_found k gpuid g [] e = absurd cc
counters_found zero gpuid g (d ∷ devices) e =
    let same : d ≡ (gpuid, g) = cc in
    ap (λ (x : ℕ × Gauges). (x.1.mem_clock.violations, x.1.clock.violations, x.1.temp.violations))
      same
counters_found (suc k) gpuid g (d ∷ devices) e = counters_found k gpuid g devices e

counters-zeroed : (k : ℕ) (gpuids : List ℕ) → counters k (zeroed gpuids) ≡ (0, 0, 0)
counters-zeroed k [] = refl
counters-zeroed zero (id ∷ gpuids) = refl
counters-zeroed (suc k) (id ∷ gpuids) = counters-zeroed k gpuids

module _ (c : Monitor) where
  abbrev pub bound : Counted → Bound
  bound of_mem_clock = c.on_mem_clock
  bound of_clock = c.on_clock
  bound of_temp = c.on_temp

  -- Whether a reading is out of the bounds of a metric.
  abbrev pub out : Counted → Reading → Bool
  out of_mem_clock r = mem_clock_out c r
  out of_clock r = clock_out c r
  out of_temp r = temp_out c r

  rows_found :
      (avg : ℕ → Text) (n k : ℕ) (row : Text) (d : ℕ × Gauges) (devices : List (ℕ × Gauges))
      → get_elem? devices k ≡ some d
      → Memᴰ row (stop_device c avg n d)
      → Memᴰ row (stop_devices c avg n devices)
  unfolding stop_devices
  rows_found avg n k row d [] e m = absurd cc
  rows_found avg n zero row d (d' ∷ devices) e m =
      let same : d ≡ d' = cc in
      Memᴰ.append_left (stop_devices c avg n devices)
        (subst (λ x. Memᴰ row (stop_device c avg n x)) same m)
  rows_found avg n (suc k) row d (d' ∷ devices) e m =
      Memᴰ.append_right (stop_device c avg n d') (rows_found avg n k row d devices e m)

  reported :
      (avg : ℕ → Text) (n : ℕ) (row : Text) (devices : List (ℕ × Gauges))
      → 0 < n
      → Memᴰ row (stop_devices c avg n devices)
      → Memᴰ row (stop_rows c avg n devices)
  unfolding stop_rows
  reported avg n row devices h m = elim (Bool-cases (n == 0)) [
    | inl none_made ↦ absurd (ground (arith, h, none_made))
    | inr made ↦ rw made m
  ]

  first_row :
      (gpuid : ℕ) (name : Text) (b : Bound) (v : ℕ) (average : Text)
      → b.mon_metric ≡ true
      → Memᴰ
          (row_of c gpuid (name ++ (codes " violations " ++ to_string v)))
          (metric_rows c gpuid name b v average)
  unfolding metric_rows
  first_row gpuid name b v average on = rw on (Memᴰ.head refl)

  device_row :
      (m : Counted) (avg : ℕ → Text) (n gpuid : ℕ) (g : Gauges)
      → (bound m).mon_metric ≡ true
      → Memᴰ
          (row_of c gpuid (metric m ++ (codes " violations " ++ to_string (counter m g))))
          (stop_device c avg n (gpuid, g))
  unfolding stop_device
  device_row of_temp avg n gpuid g on = Memᴰ.append_left _ (
      first_row gpuid (metric of_temp) c.on_temp g.temp.violations
        (integer_text (quotient n g.temp.total) ++ codes "C") on)
  device_row of_clock avg n gpuid g on = Memᴰ.append_right (temp_rows c n gpuid g) (
      Memᴰ.append_left _ (
        first_row gpuid (metric of_clock) c.on_clock g.clock.violations
          (to_string (g.clock.total / n) ++ codes "MHz") on))
  device_row of_mem_clock avg n gpuid g on = Memᴰ.append_right (temp_rows c n gpuid g) (
      Memᴰ.append_right (clock_rows c n gpuid g) (
        Memᴰ.append_left _ (
          first_row gpuid (metric of_mem_clock) c.on_mem_clock g.mem_clock.violations
            (to_string (g.mem_clock.total / n) ++ codes "MHz") on)))

  ids-rounds :
      (rounds : List (ℕ → Reading)) (devices : List (ℕ × Gauges)) (f : Flow) (count : ℕ)
      → ids (monitor_rounds c rounds devices f count).0 ≡ ids devices
  unfolding monitor_rounds
  ids-rounds [] devices f count = refl
  ids-rounds (readings ∷ rounds) devices f count =
      elim (Bool-cases (f.brun && not (is_exited f.mode))) [
        | inl on ↦ rw on (ids-rounds rounds _ _ (count + 1) ∙ ids-devices c readings 0 devices f)
        | inr off ↦ rw off refl
      ]

  module _ (calm : c.term ≡ false) where
    rounds_made :
        (rounds : List (ℕ → Reading)) (devices : List (ℕ × Gauges)) (f : Flow) (count : ℕ)
        → IsOn f
        → (monitor_rounds c rounds devices f count).1.1 ≡ count + length rounds
    unfolding monitor_rounds
    rounds_made [] devices f count on = omega arith
    rounds_made (readings ∷ rounds) devices f count on =
        let r = sample_devices c readings 0 devices f in
        let d = devices-IsOn c calm readings 0 devices f on in
        let rest =
          rounds_made rounds r.0 (record r.1 { mode = ends_round r.1.mode }) (count + 1)
            (d.0, ap ends_round d.1) in
        ap (λ x. x.1.1) (round_step c calm readings rounds devices f count on)
        ∙ (rest ∙ omega arith)

    abbrev started : List ℕ → ℕ → Flow
    started gpuids fan_percentage = record {
      brun = true;
      mode = going;
      fan_percentage = fan_percentage;
      rows = start_rows c gpuids;
      callbacks = [];
      stops = [];
    }

    abbrev ends : List ℕ → ℕ → List (ℕ → Reading) → List (ℕ × Gauges) × (Flow × ℕ)
    ends gpuids fan_percentage rounds =
        monitor_rounds c rounds (zeroed gpuids) (started gpuids fan_percentage) 0

    counted :
        (m : Counted) (gpuids : List ℕ) (fan_percentage : ℕ) (rounds : List (ℕ → Reading))
        (k gpuid : ℕ) (g : Gauges)
        → k < length (zeroed gpuids)
        → get_elem? (ends gpuids fan_percentage rounds).0 k ≡ some (gpuid, g)
        → counter m g ≡ outs (out m) k rounds
    counted m gpuids fan_percentage rounds k gpuid g h there =
        let e =
          rounds_count c calm rounds k (zeroed gpuids) (started gpuids fan_percentage) 0
            (refl, refl) h in
        let e' = sym (counters_found k gpuid g _ there) ∙ e in
        let z = counters-zeroed k gpuids in
        elim m as (λ x. counter x g ≡ outs (out x) k rounds) [
          | of_mem_clock ↦ omega (arith, ap (λ n. n.0) e', ap (λ n. n.0) z)
          | of_clock ↦ omega (arith, ap (λ n. n.1) e', ap (λ n. n.1) z)
          | of_temp ↦ omega (arith, ap (λ n. n.2) e', ap (λ n. n.2) z)
        ]

    -- After a run of at least one round whose violations do not end the monitoring, the report of
    -- `stop` has for every device, and for each of the memory clock, the clock and the temperature
    -- that is monitored, the row with the number of its readings that were out of bounds, 0 where
    -- bounds are not checked.
    pub stop_counts :
        (m : Counted) (gpuids : List ℕ) (fan_percentage : ℕ) (rounds : List (ℕ → Reading))
        (k gpuid : ℕ) (power_average : ℕ → Text)
        → (bound m).mon_metric ≡ true
        → 0 < length rounds
        → get_elem? gpuids k ≡ some gpuid
        → Memᴰ
            (row_of c gpuid
              (metric m ++ (codes " violations " ++ to_string (outs (out m) k rounds))))
            (stop_rows c power_average
              (monitor_run c gpuids fan_percentage rounds).1.1
              (monitor_run c gpuids fan_percentage rounds).0)
    unfolding monitor_run
    stop_counts m gpuids fan_percentage rounds k gpuid power_average on some_round at =
        let f = started gpuids fan_percentage in
        let last = ends gpuids fan_percentage rounds in
        let named = ids-rounds rounds (zeroed gpuids) f 0 ∙ ids-zeroed gpuids in
        let (g, there) = found_device k gpuid last.0 (ap (λ l. get_elem? l k) named ∙ at) in
        let e =
          counted m gpuids fan_percentage rounds k gpuid g (in_zeroed k gpuid gpuids at) there in
        let made = rounds_made rounds (zeroed gpuids) f 0 (refl, refl) in
        let row =
          subst
            (λ n.
              Memᴰ (row_of c gpuid (metric m ++ (codes " violations " ++ to_string n)))
                (stop_device c power_average last.1.1 (gpuid, g)))
            e (device_row m power_average last.1.1 gpuid g on) in
        reported power_average last.1.1 _ last.0 (omega (arith, made))
          (rows_found power_average last.1.1 k _ (gpuid, g) last.0 there row)
