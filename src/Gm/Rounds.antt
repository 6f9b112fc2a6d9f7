-- ===== src/Gm/Rounds.antt =====
-- How the counters of the monitor of gm.so/src/worker.cpp grow.
use rocm_validation_suite.Prelude.{
  ℕ, zero, suc, ◌+◌, ◌<◌, ◌≡◌, refl, ap, ◌∙◌, false, List, [], ◌∷◌, length, arith,
}
use rocm_validation_suite.Gm.Worker.{
  Gauges, Reading, Flow, Monitor, ends_round, sample_mem_clock, sample_clock, sample_temp,
  sample_fan, sample, sample_devices, monitor_rounds,
}
use rocm_validation_suite.Gm.Counts.{
  IsOn, one_if, counters, outs, mem_clock_out, clock_out, temp_out, raised, mem_clock_lem,
  clock_lem, temp_lem, fan-IsOn, power-IsOn,
}

module _ (c : Monitor) (calm : c.term ≡ false) where
  -- One device: the flow goes on, and the three counters rise by the violations.
  sample_lem :
      (id : ℕ) (r : Reading) (g : Gauges) (f : Flow)
      → IsOn f
      → IsOn (sample c id r g f).1
        × ((sample c id r g f).0.mem_clock.violations
            ≡ g.mem_clock.violations + one_if (mem_clock_out c r))
        × ((sample c id r g f).0.clock.violations ≡ g.clock.violations + one_if (clock_out c r))
        × ((sample c id r g f).0.temp.violations ≡ g.temp.violations + one_if (temp_out c r))
  unfolding sample
  sample_lem id r g f on =
      let m = mem_clock_lem c calm id r g.mem_clock f on in
      let k = clock_lem c calm id r g.clock (sample_mem_clock c id r g.mem_clock f).1 m.0 in
      let f2 = (sample_clock c id r g.clock (sample_mem_clock c id r g.mem_clock f).1).1 in
      let t = temp_lem c calm id r g.temp f2 k.0 in
      let f3 = (sample_temp c id r g.temp f2).1 in
      (
        power-IsOn c calm id r g.power (sample_fan c id r g.fan f3).1
            (fan-IsOn c calm id r g.fan f3 t.0),
        m.1,
        k.1,
        t.1,
      )

  triple :
      {a b d a' b' d' : ℕ} → a ≡ a' → b ≡ b' → d ≡ d' → ◌≡◌ {A = ℕ × ℕ × ℕ} (a, b, d) (a', b', d')
  triple e f g = cc

  pub devices-IsOn :
      (readings : ℕ → Reading) (i : ℕ) (devices : List (ℕ × Gauges)) (f : Flow)
      → IsOn f
      → IsOn (sample_devices c readings i devices f).1
  unfolding sample_devices
  devices-IsOn readings i [] f on = on
  devices-IsOn readings i ((id, g) ∷ devices) f on =
      devices-IsOn readings (suc i) devices (sample c id (readings i) g f).1
        (sample_lem id (readings i) g f on).0

  devices_lem :
      (readings : ℕ → Reading) (i k : ℕ) (devices : List (ℕ × Gauges)) (f : Flow)
      → IsOn f
      → k < length devices
      → IsOn (sample_devices c readings i devices f).1
        × (counters k (sample_devices c readings i devices f).0
            ≡ raised c (readings (i + k)) (counters k devices))
  unfolding sample_devices
  devices_lem readings i k [] f on h = absurd (omega arith)
  devices_lem readings i zero ((id, g) ∷ devices) f on h =
      let s = sample_lem id (readings i) g f on in
      (
        devices-IsOn readings (suc i) devices (sample c id (readings i) g f).1 s.0,
        triple s.1 s.2 s.3
            ∙ ap
                (λ n.
                  raised c (readings n)
                    (g.mem_clock.violations, g.clock.violations, g.temp.violations))
                {x = i} (omega arith),
      )
  devices_lem readings i (suc k) ((id, g) ∷ devices) f on h =
      let s = sample_lem id (readings i) g f on in
      let rest =
        devices_lem readings (suc i) k devices (sample c id (readings i) g f).1 s.0 (omega arith) in
      (
        rest.0,
        rest.1 ∙ ap (λ n. raised c (readings n) (counters k devices)) {x = suc i + k} (omega arith),
      )

  length-devices :
      (readings : ℕ → Reading) (i : ℕ) (devices : List (ℕ × Gauges)) (f : Flow)
      → length (sample_devices c readings i devices f).0 ≡ length devices
  unfolding sample_devices
  length-devices readings i [] f = refl
  length-devices readings i ((id, g) ∷ devices) f =
      ap suc (length-devices readings (suc i) devices (sample c id (readings i) g f).1)

  pub round_step :
      (readings : ℕ → Reading) (rounds : List (ℕ → Reading)) (devices : List (ℕ × Gauges))
      (f : Flow) (count : ℕ)
      → IsOn f
      → monitor_rounds c (readings ∷ rounds) devices f count
        ≡ monitor_rounds c rounds
            (sample_devices c readings 0 devices f).0
            (record (sample_devices c readings 0 devices f).1 {
              mode = ends_round (sample_devices c readings 0 devices f).1.mode;
            })
            (count + 1)
  unfolding monitor_rounds
  round_step readings rounds devices f count on = ground (arith, on.0, on.1)

  -- While a violation does not end the monitoring, the counters of the memory clock, the clock
  -- and the temperature of every device grow by the number of its readings that are out of bounds.
  pub rounds_count :
      (rounds : List (ℕ → Reading)) (k : ℕ) (devices : List (ℕ × Gauges)) (f : Flow) (count : ℕ)
      → IsOn f
      → k < length devices
      → counters k (monitor_rounds c rounds devices f count).0 ≡ (
        (counters k devices).0 + outs (mem_clock_out c) k rounds,
        (counters k devices).1 + outs (clock_out c) k rounds,
        (counters k devices).2 + outs (temp_out c) k rounds,
      )
  unfolding monitor_rounds
  rounds_count [] k devices f count on h = triple (omega arith) (omega arith) (omega arith)
  rounds_count (readings ∷ rounds) k devices f count on h =
      let r = sample_devices c readings 0 devices f in
      let f' : Flow = record r.1 { mode = ends_round r.1.mode } in
      let d = devices_lem readings 0 k devices f on h in
      let e =
        d.1
        ∙ ap (λ n. raised c (readings n) (counters k devices)) {x = 0 + k} {y = k} (omega arith) in
      let rest =
        rounds_count rounds k r.0 f' (count + 1) (d.0.0, ap ends_round d.0.1)
          (omega (arith, length-devices readings 0 devices f)) in
      ap (λ x. counters k x.0) (round_step readings rounds devices f count on)
      ∙ (rest
          ∙ triple (omega (arith, ap (λ n. n.0) e)) (omega (arith, ap (λ n. n.1) e))
              (omega (arith, ap (λ n. n.2) e)))
