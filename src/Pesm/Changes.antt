-- ===== src/Pesm/Changes.antt =====
-- What the worker of pesm.so/src/worker.cpp reports of each GPU.
use rocm_validation_suite.Prelude.{
  ℕ, ◌≡◌, refl, sym, ap, ◌∙◌, inl, inr, false, none, some, List, [], ◌∷◌, ◌++◌, Text, is_nil, map,
  ◌==◌, arith, Bool-cases, Option-cases, ==_iff, if◌then◌else◌,
}
use rocm_validation_suite.Gpu.Table.{GpuList}
use rocm_validation_suite.Pci.Caps.{
  PciDev, get_link_stat_cur_speed, get_pwr_curr_state, speed_full, state_full,
}
use rocm_validation_suite.Pesm.Numbered.{lookup}
use rocm_validation_suite.Pesm.Worker.{
  Settings, Watch, started, compare_value, first_value, note_speed, note_power, observe, watched,
  visit, scan, monitor, tell,
}
use rocm_validation_suite.Pesm.Channel.{
  Kept, kept, first_kept, next_kept, first_value_self, first_value_other, compare_value_self,
  compare_value_other, all_kept, verdict, all_kept-verdict,
}

-- The speed and the power state that one device shows, as the worker keeps them.
look : Text → Text → Kept × Kept → Kept × Kept
look speed power (s, p) =
    let s' = first_kept speed s in
    if is_nil p.0 then (s', first_kept power p) else (next_kept speed s', next_kept power p)

view : ℕ → Watch → Kept × Kept
view g st = (kept g st.speed, kept g st.power)

module _ (c : Settings) (t : GpuList) where
  note_speed_speed :
      (g : ℕ) (v : Text) (st : Watch)
      → (note_speed c t g v st).speed ≡ (compare_value g v st.speed).0
  unfolding note_speed tell
  note_speed_speed g v st = ground arith

  note_speed_power : (g : ℕ) (v : Text) (st : Watch) → (note_speed c t g v st).power ≡ st.power
  unfolding note_speed tell
  note_speed_power g v st = ground arith

  note_power_speed : (g : ℕ) (v : Text) (st : Watch) → (note_power c t g v st).speed ≡ st.speed
  unfolding note_power tell
  note_power_speed g v st = ground arith

  note_power_power :
      (g : ℕ) (v : Text) (st : Watch)
      → (note_power c t g v st).power ≡ (compare_value g v st.power).0
  unfolding note_power tell
  note_power_power g v st = ground arith

  -- Both values noted, for any channels.
  noted :
      (g k : ℕ) (speed power : Text) (s : Watch)
      → view g (note_power c t k power (note_speed c t k speed s))
        ≡ (kept g (compare_value k speed s.speed).0, kept g (compare_value k power s.power).0)
  unfolding view
  noted g k speed power s =
      let s' = note_speed c t k speed s in
      ap (λ ch. (kept g ch, kept g (note_power c t k power s').power))
        (note_power_speed k power s' ∙ note_speed_speed k speed s)
      ∙ ap (λ ch. (kept g (compare_value k speed s.speed).0, kept g ch))
          (note_power_power k power s'
            ∙ ap (λ ch. (compare_value k power ch).0) (note_speed_power k speed s))

  view-observe_self :
      (g : ℕ) (speed power : Text) (st : Watch)
      → view g (observe c t g speed power st) ≡ look speed power (view g st)
  unfolding observe view look kept
  view-observe_self g speed power st = elim (Bool-cases (is_nil (lookup g st.power.old))) [
    | inl new ↦ rw new (
        ap (λ q. (q, kept g (first_value g power st.power))) (first_value_self g speed st.speed)
        ∙ ap (λ q. (first_kept speed (kept g st.speed), q)) (first_value_self g power st.power))
    | inr known ↦ rw known (
        noted g g speed power (record st { speed = first_value g speed st.speed })
        ∙ (ap (λ q. (q, kept g (compare_value g power st.power).0))
              (compare_value_self g speed (first_value g speed st.speed)
                ∙ ap (next_kept speed) (first_value_self g speed st.speed))
            ∙ ap (λ q. (next_kept speed (first_kept speed (kept g st.speed)), q))
                (compare_value_self g power st.power)))
  ]

  view-observe_other :
      (g k : ℕ) (speed power : Text) (st : Watch)
      → (k == g) ≡ false
      → view g (observe c t k speed power st) ≡ view g st
  unfolding observe view
  view-observe_other g k speed power st h = elim (Bool-cases (is_nil (lookup k st.power.old))) [
    | inl new ↦ rw new (
        ap (λ q. (q, kept g (first_value k power st.power)))
          (first_value_other g k speed st.speed h)
        ∙ ap (λ q. (kept g st.speed, q)) (first_value_other g k power st.power h))
    | inr known ↦ rw known (
        noted g k speed power (record st { speed = first_value k speed st.speed })
        ∙ (ap (λ q. (q, kept g (compare_value k power st.power).0))
              (compare_value_other g k speed (first_value k speed st.speed) h
                ∙ first_value_other g k speed st.speed h)
            ∙ ap (λ q. (kept g st.speed, q)) (compare_value_other g k power st.power h)))
  ]

  -- What was shown of a GPU, device by device and scan by scan.
  unfoldable pub seen : ℕ → List PciDev → List PciDev
  seen g [] = []
  seen g (d ∷ devices) =
      let rest = seen g devices in
      elim (watched c t d) [ none ↦ rest | some k ↦ if k == g then d ∷ rest else rest ]

  unfoldable pub seen_all : ℕ → List (List PciDev) → List PciDev
  seen_all g [] = []
  seen_all g (devices ∷ scans) = seen g devices ++ seen_all g scans

  looks : Kept × Kept → List PciDev → Kept × Kept
  looks q [] = q
  looks q (d ∷ ds) = looks (look (get_link_stat_cur_speed d) (get_pwr_curr_state d) q) ds

  looks-append :
      (q : Kept × Kept) (xs ys : List PciDev) → looks q (xs ++ ys) ≡ looks (looks q xs) ys
  unfolding looks
  looks-append q [] ys = refl
  looks-append q (d ∷ xs) ys =
      looks-append (look (get_link_stat_cur_speed d) (get_pwr_curr_state d) q) xs ys

  visit-some :
      (d : PciDev) (st : Watch) (k : ℕ)
      → watched c t d ≡ some k
      → visit c t d st ≡ observe c t k (get_link_stat_cur_speed d) (get_pwr_curr_state d) st
  unfolding visit
  visit-some d st k e = ground (arith, e)

  seen_self : (g : ℕ) (d : PciDev) → watched c t d ≡ some g → seen g (d ∷ []) ≡ d ∷ []
  unfolding seen
  seen_self g d e = ground (arith, e)

  seen_other :
      (g k : ℕ) (d : PciDev) → watched c t d ≡ some k → (k == g) ≡ false → seen g (d ∷ []) ≡ []
  unfolding seen
  seen_other g k d e other = ground (arith, e, other)

  view-visit_self :
      (g : ℕ) (d : PciDev) (st : Watch)
      → watched c t d ≡ some g
      → view g (visit c t d st) ≡ looks (view g st) (seen g (d ∷ []))
  unfolding looks
  view-visit_self g d st e =
      ap (view g) (visit-some d st g e)
      ∙ (view-observe_self g (get_link_stat_cur_speed d) (get_pwr_curr_state d) st
          ∙ ap (looks (view g st)) (sym (seen_self g d e)))

  view-visit_other :
      (g k : ℕ) (d : PciDev) (st : Watch)
      → watched c t d ≡ some k
      → (k == g) ≡ false
      → view g (visit c t d st) ≡ looks (view g st) (seen g (d ∷ []))
  unfolding looks
  view-visit_other g k d st e other =
      ap (view g) (visit-some d st k e)
      ∙ (view-observe_other g k (get_link_stat_cur_speed d) (get_pwr_curr_state d) st other
          ∙ ap (looks (view g st)) (sym (seen_other g k d e other)))

  -- The view after one device.
  view-visit :
      (g : ℕ) (d : PciDev) (st : Watch)
      → view g (visit c t d st) ≡ looks (view g st) (seen g (d ∷ []))
  unfolding visit seen looks
  view-visit g d st = elim (Option-cases (watched c t d)) [
    | inl unwatched ↦ ground (arith, unwatched)
    | inr (k, is_k) ↦ elim (Bool-cases (k == g)) [
      | inl same ↦ view-visit_self g d st (is_k ∙ ap (λ j. some j) ((==_iff k g).0 same))
      | inr other ↦ view-visit_other g k d st is_k other
    ]
  ]

  seen-cons :
      (g : ℕ) (d : PciDev) (ds : List PciDev) → seen g (d ∷ ds) ≡ seen g (d ∷ []) ++ seen g ds
  unfolding seen
  seen-cons g d ds = ground arith

  view-scan :
      (g : ℕ) (devices : List PciDev) (st : Watch)
      → view g (scan c t devices st) ≡ looks (view g st) (seen g devices)
  unfolding scan seen looks
  view-scan g [] st = refl
  view-scan g (d ∷ devices) st =
      view-scan g devices (visit c t d st)
      ∙ (ap (λ q. looks q (seen g devices)) (view-visit g d st)
          ∙ (sym (looks-append (view g st) (seen g (d ∷ [])) (seen g devices))
              ∙ ap (looks (view g st)) (sym (seen-cons g d devices))))

  view-monitor :
      (g : ℕ) (scans : List (List PciDev)) (st : Watch)
      → view g (monitor c t scans st) ≡ looks (view g st) (seen_all g scans)
  unfolding monitor seen_all looks
  view-monitor g [] st = refl
  view-monitor g (devices ∷ scans) st =
      view-monitor g scans (scan c t devices st)
      ∙ (ap (λ q. looks q (seen_all g scans)) (view-scan g devices st)
          ∙ sym (looks-append (view g st) (seen g devices) (seen_all g scans)))

  speeds : List PciDev → List Text
  speeds = map get_link_stat_cur_speed

  next_full :
      (v : Text) (q : Kept)
      → is_nil v ≡ false
      → is_nil q.0 ≡ false
      → is_nil (next_kept v q).0 ≡ false
  unfolding next_kept
  next_full v q h k = ground (arith, h, k)

  look_full :
      (speed power : Text) (s p : Kept)
      → is_nil s.0 ≡ false
      → is_nil p.0 ≡ false
      → look speed power (s, p) ≡ (next_kept speed s, next_kept power p)
  unfolding look first_kept
  look_full speed power s p hs hp = rw (hp, hs) refl

  looks_known :
      (s p : Kept) (ds : List PciDev)
      → is_nil s.0 ≡ false
      → is_nil p.0 ≡ false
      → looks (s, p) ds
        ≡ (all_kept s (map get_link_stat_cur_speed ds), all_kept p (map get_pwr_curr_state ds))
  unfolding looks all_kept
  looks_known s p [] hs hp = refl
  looks_known s p (d ∷ ds) hs hp =
      ap (λ q. looks q ds) (look_full (get_link_stat_cur_speed d) (get_pwr_curr_state d) s p hs hp)
      ∙ looks_known (next_kept (get_link_stat_cur_speed d) s) (next_kept (get_pwr_curr_state d) p)
          ds (next_full _ s (speed_full d) hs) (next_full _ p (state_full d) hp)

  looks_flags :
      (ds : List PciDev)
      → ((looks (([], []), ([], [])) ds).0.1 ≡ verdict (map get_link_stat_cur_speed ds))
        × ((looks (([], []), ([], [])) ds).1.1 ≡ verdict (map get_pwr_curr_state ds))
  unfolding looks verdict look first_kept
  looks_flags [] = (refl, refl)
  looks_flags (d ∷ ds) =
      let e =
        looks_known (get_link_stat_cur_speed d, []) (get_pwr_curr_state d, []) ds (speed_full d)
          (state_full d) in
      (
        ap (λ q. q.0.1) e
            ∙ all_kept-verdict (get_link_stat_cur_speed d) (map get_link_stat_cur_speed ds),
        ap (λ q. q.1.1) e ∙ all_kept-verdict (get_pwr_curr_state d) (map get_pwr_curr_state ds),
      )

  -- After any scans the worker has a flag for a GPU if it was shown twice, which is "true" where a
  -- value shown of it differs from the one shown before, and "false" where none does; this holds of
  -- the speeds of its link and of its power states.
  pub monitor_flags :
      (g : ℕ) (scans : List (List PciDev))
      → (lookup g (monitor c t scans started).speed.change
          ≡ verdict (map get_link_stat_cur_speed (seen_all g scans)))
        × (lookup g (monitor c t scans started).power.change
            ≡ verdict (map get_pwr_curr_state (seen_all g scans)))
  unfolding view kept lookup
  monitor_flags g scans =
      let e = view-monitor g scans started in
      let flags = looks_flags (seen_all g scans) in
      (ap (λ q. q.0.1) e ∙ flags.0, ap (λ q. q.1.1) e ∙ flags.1)
