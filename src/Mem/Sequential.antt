-- ===== src/Mem/Sequential.antt =====
-- One order in which the threads of a launch can run: one after the other, with no fault.
use mathlib.Core.Path.{subst}
use mathlib.Core.List.{append_assoc}
use rocm_validation_suite.Prelude.{ℕ, List, [], ◌∷◌, ◌++◌}
use rocm_validation_suite.Mem.Device.{Device, Op, exec, exec_all, Thread, turn, Steps, here, next}

abbrev pub run_threads : List Thread → Device → Device
run_threads [] d = d
run_threads ((p, ops) ∷ ts) d = run_threads ts (exec_all ops (d, p)).0

Steps-trans : {s t u : List Thread × Device} → Steps s t → Steps t u → Steps s u
Steps-trans r here = r
Steps-trans r (next q st) = next (Steps-trans r q) st

thread_Steps :
    (before after : List Thread) (ops : List Op) (p : ℕ) (d : Device)
    → Steps
        (before ++ (p, ops) ∷ after, d)
        (before ++ ((exec_all ops (d, p)).1, []) ∷ after, (exec_all ops (d, p)).0)
unfolding exec_all
thread_Steps before after [] p d = here
thread_Steps before after (op ∷ ops) p d =
    Steps-trans (next here (turn before after op ops p d))
      (thread_Steps before after ops (exec op (d, p)).1 (exec op (d, p)).0)

after_Steps :
    (before ts : List Thread) (d : Device)
    → (ts' : List Thread) × Steps (before ++ ts, d) (ts', run_threads ts d)
after_Steps before [] d = (before ++ [], here)
after_Steps before ((p, ops) ∷ ts) d =
    let r = exec_all ops (d, p) in
    let (ts', steps) = after_Steps (before ++ (r.1, []) ∷ []) ts r.0 in
    (
      ts',
      Steps-trans (thread_Steps before ts ops p d) (
          subst (λ l. Steps (l, r.0) (ts', run_threads ts r.0))
            (append_assoc before ((r.1, []) ∷ []) ts) steps),
    )

pub run_threads-Steps :
    (ts : List Thread) (d : Device) → (ts' : List Thread) × Steps (ts, d) (ts', run_threads ts d)
run_threads-Steps = after_Steps []
