-- ===== src/Mem/Silent.antt =====
-- The counter of errors is never written by the kernels of mem.so/src/rvs_memtest.cpp.
use mathlib.Core.List.{append_assoc, append-nil}
use rocm_validation_suite.Prelude.{
  ℕ, zero, suc, ◌+◌, ◌-◌, ◌/◌, ◌*◌, ◌%◌, ◌^◌, ◌≡◌, refl, sym, ap, ◌∙◌, true, List, [], ◌∷◌, ◌++◌,
  arith,
}
use rocm_validation_suite.Mem.Device.{
  Device, Op, store, compare, compare_long, report_long, record_error, complement, exec, Thread,
  Step, turn, fault, Steps, here, next,
}
use rocm_validation_suite.Mem.Walk.{kernel_test0_global_write, kernel_test0_global_read}
use rocm_validation_suite.Mem.Kernels.{kernel_test5_init}
use rocm_validation_suite.Mem.Host.{
  Setup, Host, gridsize, repeat, error_checking, launch_kernel, add_errors, sweep, sweep_check,
  report, test0_round, test0, test1, move_inv_test, pattern, both_ways, test2, test3, test4_repeat,
  test4, test5_init_round, test5, movinv32, test6_round, test6, copy_block, test7_round, modtest,
  modtest_round, test8_round, repeat_test, test7, test8, test9, run_each, run_ten_tests,
}

count-record_error :
    (a e v : ℕ) (d : Device) (p : ℕ) → (record_error a e v (d, p)).0.count ≡ d.count
unfolding record_error
count-record_error a e v d p = ground arith

count-exec : (op : Op) (d : Device) (p : ℕ) → (exec op (d, p)).0.count ≡ d.count
unfolding exec
count-exec (store a v) d p = refl
count-exec (compare a v) d p = ground arith
count-exec (compare_long a v) d p = ground arith
count-exec (report_long a v) d p = ground arith

count-Step : {s t : List Thread × Device} → Step s t → t.1.count ≡ s.1.count
count-Step (turn before after op ops p d) = count-exec op d p
count-Step (fault ts d a v) = refl

pub count-Steps : {s t : List Thread × Device} → Steps s t → t.1.count ≡ s.1.count
count-Steps here = refl
count-Steps (next r st) = count-Step st ∙ count-Steps r

-- A launch ends in a state that turns of its threads and faults of the memory lead to.
abbrev pub Runs : Setup → Type 0
Runs s = (ts : List Thread) (d : Device) → (ts' : List Thread) × Steps (ts, d) (ts', s.launch ts d)

-- No error is counted, on the device or on the host.
abbrev Calm : Device × ℕ → Type 0
Calm r = (r.0.count 0 ≡ 0) × (r.1 ≡ 0)

repeat_inv {ℓ κ} :
    {S : Type ℓ} (P : S → Type κ) (n : ℕ) (body : ℕ → S → S) (s : S)
    → ((i : ℕ) (s : S) → P s → P (body i s))
    → P s
    → P (repeat n body s)
unfolding repeat
repeat_inv P zero body s keep h = h
repeat_inv P (suc n) body s keep h = keep n (repeat n body s) (repeat_inv P n body s keep h)

module _ (s : Setup) (runs : Runs s) where
  count-launch : (program : ℕ → List Op) (d : Device) → (launch_kernel s program d).count ≡ d.count
  unfolding launch_kernel
  count-launch program d = count-Steps (runs _ d).1

  Calm-add_errors : (d : Device) (err : ℕ) → Calm (d, err) → Calm (add_errors s (d, err))
  unfolding add_errors error_checking
  Calm-add_errors d err h = ground arith

  module _ (start tot ptr : ℕ) (kernel : ℕ → ℕ → List Op) where
    count-sweep : (d : Device) → (sweep s start tot ptr kernel d).count ≡ d.count
    unfolding sweep
    count-sweep d =
        repeat_inv (λ e. e.count ≡ d.count) _ _ d
          (λ j e same. count-launch (kernel (ptr + (start + gridsize * j) * s.bs)) e ∙ same) refl

    Calm-sweep : (d : Device) → d.count 0 ≡ 0 → (sweep s start tot ptr kernel d).count 0 ≡ 0
    Calm-sweep d h = ap (λ c. c 0) (count-sweep d) ∙ h

    Calm-sweep_check : (r : Device × ℕ) → Calm r → Calm (sweep_check s start tot ptr kernel r)
    unfolding sweep_check
    Calm-sweep_check r h =
        repeat_inv Calm _ _ r
          (λ j r c.
            Calm-add_errors (launch_kernel s (kernel (ptr + (start + gridsize * j) * s.bs)) r.0) r.1
              (
                ap (λ k. k 0) (count-launch (kernel (ptr + (start + gridsize * j) * s.bs)) r.0)
                    ∙ c.0,
                c.1,
              ))
          h

  -- A test reports that it passed, with no error.
  abbrev Passes : ℕ → Host → Host → Type 0
  Passes n h h' = Calm (h'.device, h'.err) × (h'.passed ≡ h.passed ++ n ∷ [])

  abbrev Starts : Host → Type 0
  Starts h = Calm (h.device, h.err)

  Passes-report : (n : ℕ) (h : Host) → Starts h → Passes n h (report s n h)
  unfolding report
  Passes-report n h c = ground arith

  module _ (ptr tot : ℕ) where
    Calm-test0_round : (r : Device × ℕ) → Calm r → Calm (test0_round s ptr tot r)
    unfolding test0_round
    Calm-test0_round r c = Calm-sweep_check 0 tot ptr _ _ (Calm-sweep 0 tot ptr _ _ c.0, c.1)

    test0-Passes : (h : Host) → Starts h → Passes 1 h (test0 s ptr tot h)
    unfolding test0
    test0-Passes h c =
        let written =
          launch_kernel s (λ b. kernel_test0_global_write ptr (ptr + tot * s.bs)) h.device in
        let read = launch_kernel s (λ b. kernel_test0_global_read ptr (ptr + tot * s.bs)) written in
        let quiet : read.count 0 ≡ 0 =
          ap (λ k. k 0)
            (count-launch (λ b. kernel_test0_global_read ptr (ptr + tot * s.bs)) written
              ∙ count-launch (λ b. kernel_test0_global_write ptr (ptr + tot * s.bs)) h.device)
          ∙ c.0 in
        (
          repeat_inv Calm s.num_passes (λ ite. test0_round s ptr tot) (add_errors s (read, 0))
              (λ ite. Calm-test0_round) (Calm-add_errors read 0 (quiet, refl)),
          refl,
        )

    test1-Passes : (h : Host) → Starts h → Passes 2 h (test1 s ptr tot h)
    unfolding test1
    test1-Passes h c =
        Passes-report 2 _ (Calm-sweep_check 0 tot ptr _ _ (Calm-sweep 0 tot ptr _ _ c.0, c.1))

    Calm-move_inv_test :
        (p1 p2 : ℕ) (d : Device) → d.count 0 ≡ 0 → Calm (move_inv_test s ptr tot p1 p2 d)
    unfolding move_inv_test
    Calm-move_inv_test p1 p2 d c =
        Calm-sweep_check 0 tot ptr _ _
          (Calm-sweep_check 0 tot ptr _ _ (Calm-sweep 0 tot ptr _ _ c, refl))

    both_ways-Passes :
        (n p1 p2 : ℕ) (h : Host) → Starts h → Passes n h (both_ways s ptr tot n p1 p2 h)
    unfolding both_ways
    both_ways-Passes n p1 p2 h c =
        let r = move_inv_test s ptr tot p1 p2 h.device in
        let (quiet, none_1) = Calm-move_inv_test p1 p2 h.device c.0 in
        let (quiet', none_2) = Calm-move_inv_test p2 p1 r.0 quiet in
        Passes-report n
          (record {
            device = (move_inv_test s ptr tot p2 p1 r.0).0;
            err = (r.1 + (move_inv_test s ptr tot p2 p1 r.0).1) % 2 ^ 32;
            passed = h.passed;
          })
          (quiet', omega arith)

    test4_repeat-Passes :
        (left : ℕ) (h : Host) → Starts h → Passes 5 h (test4_repeat s ptr tot left true h)
    unfolding test4_repeat
    test4_repeat-Passes zero h c =
        ground (arith, Calm-move_inv_test (pattern s) (complement 32 (pattern s)) h.device c.0)
    test4_repeat-Passes (suc left) h c =
        ground (arith, Calm-move_inv_test (pattern s) (complement 32 (pattern s)) h.device c.0)

    quiet-test5_init_round :
        (j : ℕ) (d : Device) → d.count 0 ≡ 0 → (test5_init_round s ptr tot j d).count 0 ≡ 0
    unfolding test5_init_round error_checking
    quiet-test5_init_round j d c =
        ap (λ k. k 0)
          (count-launch (kernel_test5_init s.bs (ptr + gridsize * j * s.bs) (ptr + tot * s.bs))
            (error_checking d).0)
        ∙ ground arith

    test5-Passes : (h : Host) → Starts h → Passes 6 h (test5 s ptr tot h)
    unfolding test5
    test5-Passes h c = Passes-report 6 _ (
        Calm-sweep_check 0 tot ptr _ _ (
          Calm-sweep 0 tot ptr _ _ (
              repeat_inv (λ d. d.count 0 ≡ 0) ((tot + (gridsize - 1)) / gridsize)
                (test5_init_round s ptr tot) h.device quiet-test5_init_round c.0),
          c.1,
        ))

    Calm-movinv32 :
        (pat lb sval offset : ℕ) (d : Device)
        → d.count 0 ≡ 0
        → Calm (movinv32 s ptr tot pat lb sval offset d)
    unfolding movinv32
    Calm-movinv32 pat lb sval offset d c =
        Calm-sweep_check 0 tot ptr _ _
          (Calm-sweep_check 0 tot ptr _ _ (Calm-sweep 0 tot ptr _ _ c, refl))

    Calm-test6_round : (i : ℕ) (r : Device × ℕ) → Calm r → Calm (test6_round s ptr tot i r)
    unfolding test6_round
    Calm-test6_round i r c =
        let once = movinv32 s ptr tot (2 ^ i) 1 0 i r.0 in
        let (quiet, none_1) = Calm-movinv32 (2 ^ i) 1 0 i r.0 c.0 in
        let (quiet', none_2) = Calm-movinv32 (complement 32 (2 ^ i)) 0xfffffffe 1 i once.0 quiet in
        (quiet', rw (none_1, none_2, c.1) refl)

    test6-Passes : (h : Host) → Starts h → Passes 7 h (test6 s ptr tot h)
    unfolding test6
    test6-Passes h c =
        Passes-report 7 _
          (repeat_inv Calm 32 (test6_round s ptr tot) (h.device, h.err) Calm-test6_round c)

    Calm-test7_round : (r : Device × ℕ) → Calm r → Calm (test7_round s ptr tot r)
    unfolding test7_round
    Calm-test7_round r c =
        Calm-sweep_check 1 tot ptr _ _
          (Calm-sweep_check 1 tot ptr _ _ (Calm-sweep 1 tot ptr _ _ c.0, c.1))

    Calm-modtest :
        (offset p1 p2 : ℕ) (d : Device) → d.count 0 ≡ 0 → Calm (modtest s ptr tot offset p1 p2 d)
    unfolding modtest
    Calm-modtest offset p1 p2 d c =
        Calm-sweep_check 0 tot ptr _ _ (Calm-sweep 0 tot ptr _ _ c, refl)

    Calm-modtest_round : (i : ℕ) (r : Device × ℕ) → Calm r → Calm (modtest_round s ptr tot i r)
    unfolding modtest_round
    Calm-modtest_round i r c =
        let (quiet, no_error) = Calm-modtest i (pattern s) (complement 32 (pattern s)) r.0 c.0 in
        (quiet, rw (no_error, c.1) refl)

    Calm-test8_round : (r : Device × ℕ) → Calm r → Calm (test8_round s ptr tot r)
    unfolding test8_round
    Calm-test8_round r c = repeat_inv Calm 20 (modtest_round s ptr tot) r Calm-modtest_round c

    repeat_test-Passes :
        (n : ℕ) (round : Device × ℕ → Device × ℕ) (left : ℕ) (h : Host)
        → ((r : Device × ℕ) → Calm r → Calm (round r))
        → Starts h
        → Passes n h (repeat_test s ptr tot n round left true h)
    unfolding repeat_test
    repeat_test-Passes n round zero h calm c = ground (arith, calm (h.device, h.err) c)
    repeat_test-Passes n round (suc left) h calm c = ground (arith, calm (h.device, h.err) c)

    test7-Passes : (h : Host) → Starts h → Passes 8 h (test7 s ptr tot h)
    unfolding test7 copy_block
    test7-Passes h c =
        repeat_test-Passes 8 (test7_round s ptr tot) s.num_iterations
          (record h { device = copy_block s ptr tot h.device }) Calm-test7_round c

    test9-Passes : (h : Host) → Starts h → Passes 10 h (test9 s ptr tot h)
    unfolding test9
    test9-Passes h c = Passes-report 10 _ (
        Calm-sweep_check 0 tot ptr _ _
          (Calm-sweep_check 0 tot ptr _ _ (Calm-sweep 0 tot ptr _ _ c.0, c.1)))

    -- Tests that report these numbers, whatever ran before.
    abbrev Blind : List (Host → Host) → List ℕ → Type 0
    Blind [] [] = Unit
    Blind (test ∷ tests) (n ∷ numbers) =
        ((h : Host) → Starts h → Passes n h (test h)) × Blind tests numbers
    Blind _ _ = ⊥

    run_each-Blind :
        (tests : List (Host → Host)) (numbers : List ℕ)
        → Blind tests numbers
        → (h : Host) → h.device.count 0 ≡ 0
        → ((run_each s ptr tot tests h).device.count 0 ≡ 0)
          × ((run_each s ptr tot tests h).passed ≡ h.passed ++ numbers)
    unfolding run_each
    run_each-Blind [] [] blind h c = (c, sym (append-nil h.passed))
    run_each-Blind [] (n ∷ numbers) blind h c = elim blind [ ]
    run_each-Blind (test ∷ tests) [] blind h c = elim blind [ ]
    run_each-Blind (test ∷ tests) (n ∷ numbers) blind h c =
        let once = blind.0 (record h { err = 0 }) (c, refl) in
        let (quiet, all) =
          run_each-Blind tests numbers blind.1 (test (record h { err = 0 })) once.0.0 in
        (quiet, all ∙ ap (λ l. l ++ numbers) once.1 ∙ append_assoc h.passed (n ∷ []) numbers)

    -- Whatever the memory does, and however the threads of a launch take turns: if the counter of
    -- errors is 0 at first, then it is 0 after the first ten of the eleven tests of the table, and
    -- each of these ten is reported as passed.
    pub run_ten_tests_blind :
        (h : Host)
        → h.device.count 0 ≡ 0
        → ((run_ten_tests s ptr tot h).device.count 0 ≡ 0)
          × ((run_ten_tests s ptr tot h).passed
              ≡ h.passed ++ 1 ∷ 2 ∷ 3 ∷ 4 ∷ 5 ∷ 6 ∷ 7 ∷ 8 ∷ 9 ∷ 10 ∷ [])
    unfolding run_ten_tests test2 test3 test4 test8
    run_ten_tests_blind = run_each-Blind _ _ (
      test0-Passes,
      (
        test1-Passes,
        (
          both_ways-Passes 3 0 (complement 32 0),
          (
            both_ways-Passes 4 0x80808080 (complement 32 0x80808080),
            (
              test4_repeat-Passes s.num_iterations,
              (
                test5-Passes,
                (
                  test6-Passes,
                  (
                    test7-Passes,
                    (
                      (λ h.
                          repeat_test-Passes 9 (test8_round s ptr tot) s.num_iterations h
                            Calm-test8_round),
                      (test9-Passes, tt),
                    ),
                  ),
                ),
              ),
            ),
          ),
        ),
      ),
    )
