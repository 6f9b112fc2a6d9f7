-- ===== src/Gm/Blind.antt =====
-- What the monitor of gm.so/src/worker.cpp does not react to.
use rocm_validation_suite.Prelude.{
  ℕ, suc, ◌+◌, ◌≡◌, refl, sym, ap, ◌∙◌, inl, inr, Bool, not, ◌&&◌, Option, none, some, List, [],
  ◌∷◌, Text, Bool-cases, map,
}
use rocm_validation_suite.Exec.Run.{ℤ}
use rocm_validation_suite.Gm.Worker.{
  Bound, Gauge, Gauges, Reading, Flow, Monitor, is_going, is_exited, ends_round, violates, note,
  gate, note_fan, sample_mem_clock, sample_clock, note_temp, sample_temp, percentage, sample_fan,
  sample_power, sample, sample_devices, monitor_rounds,
}

-- A reading, but for the power.
abbrev pub unpowered : Reading → Reading
unpowered r = record r { socket_power = 0 }

-- The devices, by their numbers.
abbrev pub ids : List (ℕ × Gauges) → List ℕ
ids devices = map (λ d. d.0) devices

module _ (c : Monitor) where
  note_blind :
      {V : Type 0} (b : Bound) (leaves inside : Bool) (msg : Text) (value total value' total' : V)
      (g g' : Gauge V) (f : Flow)
      → (note c b leaves inside msg value total g f).1
        ≡ (note c b leaves inside msg value' total' g' f).1
  unfolding note
  note_blind b leaves inside msg value total value' total' g g' f =
      elim (Bool-cases (violates b inside)) [ inl out ↦ rw out refl | inr fine ↦ rw fine refl ]

  gate_blind :
      {V : Type 0} (monitored : Bool) (r r' : Gauge V × Flow) (g g' : Gauge V) (f : Flow)
      → r.1 ≡ r'.1
      → (gate c monitored r g f).1 ≡ (gate c monitored r' g' f).1
  unfolding gate
  gate_blind monitored r r' g g' f e = elim (Bool-cases (is_going f.mode && monitored)) [
    | inl on ↦ rw on e
    | inr off ↦ rw off refl
  ]

  mem_clock_blind :
      (id : ℕ) (r : Reading) (g g' : Gauge ℕ) (f : Flow)
      → (sample_mem_clock c id (unpowered r) g f).1 ≡ (sample_mem_clock c id r g' f).1
  unfolding sample_mem_clock
  mem_clock_blind id r g g' f = gate_blind _ _ _ g g' f (note_blind _ _ _ _ _ _ _ _ g g' f)

  clock_blind :
      (id : ℕ) (r : Reading) (g g' : Gauge ℕ) (f : Flow)
      → (sample_clock c id (unpowered r) g f).1 ≡ (sample_clock c id r g' f).1
  unfolding sample_clock
  clock_blind id r g g' f = gate_blind _ _ _ g g' f (note_blind _ _ _ _ _ _ _ _ g g' f)

  note_temp_blind :
      (id : ℕ) (o : Option ℤ) (g g' : Gauge ℤ) (f : Flow)
      → (note_temp c id o g f).1 ≡ (note_temp c id o g' f).1
  unfolding note_temp
  note_temp_blind id none g g' f = refl
  note_temp_blind id (some temperature) g g' f = note_blind _ _ _ _ _ _ _ _ g g' f

  temp_blind :
      (id : ℕ) (r : Reading) (g g' : Gauge ℤ) (f : Flow)
      → (sample_temp c id (unpowered r) g f).1 ≡ (sample_temp c id r g' f).1
  unfolding sample_temp
  temp_blind id r g g' f = gate_blind _ _ _ g g' f (note_temp_blind id r.temperature g g' f)

  note_fan_blind :
      (id p : ℕ) (r : Reading) (g g' : Gauge ℕ) (f : Flow)
      → (note_fan c id r p g f).1 ≡ (note_fan c id r p g' f).1
  unfolding note_fan
  note_fan_blind id p r g g' f = elim (Bool-cases r.fan_known) [
    | inl known ↦ rw known (note_blind _ _ _ _ _ _ _ _ g g' (record f { fan_percentage = p }))
    | inr unknown ↦ rw unknown refl
  ]

  fan_blind :
      (id : ℕ) (r : Reading) (g g' : Gauge ℕ) (f : Flow)
      → (sample_fan c id (unpowered r) g f).1 ≡ (sample_fan c id r g' f).1
  unfolding sample_fan gate note_fan percentage
  fan_blind id r g g' f =
      gate_blind _ _ _ g g' f (note_fan_blind id (percentage r f.fan_percentage) r g g' f)

  power_blind :
      (id : ℕ) (r : Reading) (g g' : Gauge ℕ) (f : Flow)
      → (sample_power c id (unpowered r) g f).1 ≡ (sample_power c id r g' f).1
  unfolding sample_power
  power_blind id r g g' f = gate_blind _ _ _ g g' f (note_blind _ _ _ _ _ _ _ _ g g' f)

  sample_blind :
      (id : ℕ) (r : Reading) (g g' : Gauges) (f : Flow)
      → (sample c id (unpowered r) g f).1 ≡ (sample c id r g' f).1
  unfolding sample
  sample_blind id r g g' f =
      let m = mem_clock_blind id r g.mem_clock g'.mem_clock f in
      let k =
        ap (λ x. (sample_clock c id (unpowered r) g.clock x).1) m
        ∙ clock_blind id r g.clock g'.clock _ in
      let t =
        ap (λ x. (sample_temp c id (unpowered r) g.temp x).1) k
        ∙ temp_blind id r g.temp g'.temp _ in
      let n =
        ap (λ x. (sample_fan c id (unpowered r) g.fan x).1) t ∙ fan_blind id r g.fan g'.fan _ in
      ap (λ x. (sample_power c id (unpowered r) g.power x).1) n
      ∙ power_blind id r g.power g'.power _

  pub ids-devices :
      (readings : ℕ → Reading) (i : ℕ) (devices : List (ℕ × Gauges)) (f : Flow)
      → ids (sample_devices c readings i devices f).0 ≡ ids devices
  unfolding sample_devices
  ids-devices readings i [] f = refl
  ids-devices readings i ((id, g) ∷ devices) f =
      ap (λ l. id ∷ l) (ids-devices readings (suc i) devices (sample c id (readings i) g f).1)

  devices_blind :
      (readings : ℕ → Reading) (i : ℕ) (devices devices' : List (ℕ × Gauges)) (f : Flow)
      → ids devices ≡ ids devices'
      → (sample_devices c (λ k. unpowered (readings k)) i devices f).1
        ≡ (sample_devices c readings i devices' f).1
  unfolding sample_devices
  devices_blind readings i [] [] f e = refl
  devices_blind readings i [] (d ∷ devices') f e = absurd cc
  devices_blind readings i (d ∷ devices) [] f e = absurd cc
  devices_blind readings i ((id, g) ∷ devices) ((id', g') ∷ devices') f e =
      let e0 : id ≡ id' = cc in
      let e1 : ids devices ≡ ids devices' = cc in
      let here =
        ap (λ x. (sample c x (unpowered (readings i)) g f).1) e0
        ∙ sample_blind id' (readings i) g g' f in
      ap (λ x. (sample_devices c (λ k. unpowered (readings k)) (suc i) devices x).1) here
      ∙ devices_blind readings (suc i) devices devices' _ e1

  round_blind :
      (readings : ℕ → Reading) (rounds : List (ℕ → Reading)) (devices devices' : List (ℕ × Gauges))
      (f : Flow) (count : ℕ)
      → ids devices ≡ ids devices'
      → ((d d' : List (ℕ × Gauges)) (x : Flow) (n : ℕ)
          → ids d ≡ ids d'
          → (monitor_rounds c (map (λ readings k. unpowered (readings k)) rounds) d x n).1
            ≡ (monitor_rounds c rounds d' x n).1)
      → (monitor_rounds c
          (map (λ readings k. unpowered (readings k)) rounds)
          (sample_devices c (λ k. unpowered (readings k)) 0 devices f).0
          (record (sample_devices c (λ k. unpowered (readings k)) 0 devices f).1 {
            mode = ends_round (sample_devices c (λ k. unpowered (readings k)) 0 devices f).1.mode;
          })
          (count + 1)).1
        ≡ (monitor_rounds c rounds
            (sample_devices c readings 0 devices' f).0
            (record (sample_devices c readings 0 devices' f).1 {
              mode = ends_round (sample_devices c readings 0 devices' f).1.mode;
            })
            (count + 1)).1
  round_blind readings rounds devices devices' f count e rest =
      let same =
        ids-devices (λ k. unpowered (readings k)) 0 devices f
        ∙ (e ∙ sym (ids-devices readings 0 devices' f)) in
      ap
        (λ (x : Flow).
          (monitor_rounds c (map (λ readings k. unpowered (readings k)) rounds)
            (sample_devices c (λ k. unpowered (readings k)) 0 devices f).0
            (record x { mode = ends_round x.mode }) (count + 1)).1)
        (devices_blind readings 0 devices devices' f e)
      ∙ rest _ _ _ (count + 1) same

  blind :
      (rounds : List (ℕ → Reading)) (devices devices' : List (ℕ × Gauges)) (f : Flow) (count : ℕ)
      → ids devices ≡ ids devices'
      → (monitor_rounds c (map (λ readings k. unpowered (readings k)) rounds) devices f count).1
        ≡ (monitor_rounds c rounds devices' f count).1
  unfolding monitor_rounds
  blind [] devices devices' f count e = refl
  blind (readings ∷ rounds) devices devices' f count e =
      elim (Bool-cases (f.brun && not (is_exited f.mode))) [
        | inl on ↦ rw on (round_blind readings rounds devices devices' f count e (blind rounds))
        | inr off ↦ rw off refl
      ]

  -- In the rounds of the monitor's loop, the power that the devices report has no influence on the
  -- rows and the callbacks on bounds, on the calls of `Stop`, on how the loop ends and on the number
  -- of its rounds. The rows with the values that the timer prints, and the averages at the end, are
  -- not part of this.
  pub power_unseen :
      (rounds : List (ℕ → Reading)) (devices : List (ℕ × Gauges)) (f : Flow) (count : ℕ)
      → (monitor_rounds c (map (λ readings k. unpowered (readings k)) rounds) devices f count).1
        ≡ (monitor_rounds c rounds devices f count).1
  power_unseen rounds devices f count = blind rounds devices devices f count refl
