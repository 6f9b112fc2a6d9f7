-- ===== src/Gm/Results.antt =====
-- What `gm_action::run` of gm.so/src/action.cpp reports, and which devices it monitors.
use mathlib.Core.Path.{subst}
use rocm_validation_suite.Prelude.{
  ◌≡◌, refl, ap, ◌⊎◌, inl, inr, Bool, true, false, Option, none, some, List, [], ◌∷◌, ◌++◌, Text,
  codes, str_eq, is_nil, arith, Bool-cases, Option-cases, if◌then◌else◌,
}
use rocm_validation_suite.Action.Keys.{get_all_common_config_keys}
use rocm_validation_suite.Gm.Config.{get_all_gm_config_keys}
use rocm_validation_suite.Gpu.Initialize.{gpu_get_all_gpu_id}
use rocm_validation_suite.Gm.Action.{
  System, Running, GmSession, Handled, handled, without_location, property_at, with_device_id,
  callback, refuse, stop_running, start_worker, select, configure, run_gm,
}

abbrev pub is_running : Option Running → Bool
is_running none = false
is_running (some worker) = true

-- One more result, a success exactly where a monitor is running, and 0 returned then.
pub record IsReported (before : List (Bool × Text)) (r : Bool × GmSession) : Type 0 where
  pub output : Text
  pub reports : r.1.callbacks ≡ before ++ (is_running r.1.pworker, output) ∷ []
  pub returns : (is_running r.1.pworker ≡ false) ⊎ (r.0 ≡ true)

failed-IsReported :
    (code : Bool) (output : Text) (s : GmSession)
    → s.pworker ≡ none
    → IsReported s.callbacks (code, callback false output s)
unfolding callback
failed-IsReported code output s idle = record {
  output = output;
  reports = rw idle refl;
  returns = inl (ap is_running idle);
}

refuse-IsReported :
    (output : Text) (s : GmSession) → s.pworker ≡ none → IsReported s.callbacks (refuse output s)
unfolding refuse
refuse-IsReported output s idle = failed-IsReported false output s idle

start-IsReported :
    (h : Handled) (s : GmSession) → s.pworker ≡ none → IsReported s.callbacks (start_worker h s)
unfolding start_worker callback
start-IsReported (without_location gpu) s idle = refuse-IsReported _ _ idle
start-IsReported (handled dv_hdl) s idle = record { output = _; reports = refl; returns = inr refl }

select-IsReported :
    (w : System) (s : GmSession) → s.pworker ≡ none → IsReported s.callbacks (select w s)
unfolding select
select-IsReported w s idle =
    let all =
      if s.action.base.property_device_all
      then gpu_get_all_gpu_id w.node_gpu_ids s.action.base.property_device
      else s.action.base.property_device in
    elim (Bool-cases (is_nil (with_device_id w.table s.action.base.property_device_id all))) [
      | inl empty ↦ rw empty (refuse-IsReported _ _ idle)
      | inr some_gpu ↦ rw some_gpu (start-IsReported _ _ idle)
    ]

configure-IsReported :
    (w : System) (s : GmSession) → s.pworker ≡ none → IsReported s.callbacks (configure w s)
unfolding configure
configure-IsReported w s idle =
    let common = get_all_common_config_keys s.action.base in
    let keys = get_all_gm_config_keys (record s.action { base = common.0 }) in
    elim (Bool-cases common.1) [
      | inr bad ↦ rw bad (refuse-IsReported _ _ idle)
      | inl good ↦ elim (Bool-cases keys.1) [
        | inr bad ↦ rw (good, bad) (refuse-IsReported _ _ idle)
        | inl fine ↦ rw (good, fine) (select-IsReported w _ idle)
      ]
    ]

pub stop_idle : (s : GmSession) → (stop_running s).pworker ≡ none
unfolding stop_running
stop_idle s = elim (Option-cases s.pworker) [
  | inl idle ↦ ground (arith, idle)
  | inr (worker, there) ↦ ground (arith, there)
]

stop_callbacks : (s : GmSession) → (stop_running s).callbacks ≡ s.callbacks
unfolding stop_running
stop_callbacks s = ground arith

-- `run` passes exactly one result on, whose status is a success exactly where a monitor is running
-- afterwards; where one is running, `run` returns 0.
pub run_gm-IsReported : (w : System) (s : GmSession) → IsReported s.callbacks (run_gm w s)
unfolding run_gm
run_gm-IsReported w s =
    let at = property_at (codes "monitor") (stop_running s).action.base in
    subst (λ cbs. IsReported cbs (run_gm w s)) (stop_callbacks s)
      (elim (Bool-cases (str_eq at.0 (codes "true"))) [
        | inl asked ↦ rw asked (configure-IsReported w _ (stop_idle s))
        | inr off ↦ rw off (failed-IsReported true _ _ (stop_idle s))
      ])
