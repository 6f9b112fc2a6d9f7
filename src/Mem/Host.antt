-- ===== src/Mem/Host.antt =====
-- The tests of mem.so/src/rvs_memtest.cpp on the host. A launch of a kernel is a parameter, and so
-- are the random numbers; of the messages only those that end in PASS are kept, by their number.
use rocm_validation_suite.Prelude.{
  ℕ, zero, suc, ◌+◌, ◌-◌, ◌*◌, ◌/◌, ◌%◌, ◌^◌, Bool, List, [], ◌∷◌, ◌++◌, true, false, ltb, ◌&&◌,
  ◌==◌, if◌then◌else◌,
}
use rocm_validation_suite.Mem.Device.{Device, set_at, max_err_record_count, complement, Op, Thread}
use rocm_validation_suite.Mem.Walk.{
  kernel_test0_global_write, kernel_test0_global_read, kernel_test0_write, kernel_test0_read,
}
use rocm_validation_suite.Mem.Kernels.{
  kernel_test1_write, kernel_test1_read, kernel_move_inv_write, kernel_move_inv_readwrite,
  kernel_move_inv_read, kernel_test5_init, kernel_test5_move, kernel_test5_check,
  kernel_test7_write, kernel_test7_readwrite, kernel_test7_read, kernel_movinv32_write,
  kernel_movinv32_readwrite, kernel_movinv32_read, kernel_modtest_write, kernel_modtest_read,
}

-- The fields of `memdata` that the tests read, BLOCKSIZE, and what the tests call.
pub record Setup : Type 0 where
  pub bs : ℕ
  pub blocks : ℕ
  pub threads_per_block : ℕ
  pub num_passes : ℕ
  pub num_iterations : ℕ
  pub global_pattern : ℕ
  pub random : ℕ → ℕ
  pub launch : List Thread → Device → Device

-- The device, `*err`, and the numbers of the tests that were reported as passed.
pub record Host : Type 0 where
  pub device : Device
  pub err : ℕ
  pub passed : List ℕ

abbrev pub gridsize : ℕ
gridsize = 128

-- `for (i = 0; i < n; i++)`, on a state.
unfoldable pub repeat {ℓ} : {S : Type ℓ} → ℕ → (ℕ → S → S) → S → S
repeat zero body s = s
repeat (suc n) body s = body n (repeat n body s)

unfoldable pub threads : ℕ → (ℕ → List Thread) → List Thread
threads zero f = []
threads (suc n) f = threads n f ++ f n

abbrev clear : (ℕ → ℕ) → ℕ → ℕ
clear f x = if ltb x max_err_record_count then 0 else f x

-- The errors that were counted, and the arrays afterwards.
unfoldable pub error_checking : Device → Device × ℕ
error_checking d = if d.count 0 == 0 then (d, 0) else (
  record d {
    count = set_at 0 0 d.count;
    failed = clear d.failed;
    expected = clear d.expected;
    current = clear d.current;
  },
  d.count 0,
)

module _ (s : Setup) where
  -- `hipLaunchKernelGGL` with `memdata.blocks` blocks of `memdata.threadsPerBlock` threads.
  unfoldable pub launch_kernel : (ℕ → List Op) → Device → Device
  unfolding threads
  launch_kernel program =
      s.launch (threads s.blocks (λ b. threads s.threads_per_block (λ t. (0, program b) ∷ [])))

  -- `*err += error_checking(…)`
  unfoldable pub add_errors : Device × ℕ → Device × ℕ
  unfolding error_checking
  add_errors (d, err) = let r = error_checking d in (r.0, (err + r.1) % 2 ^ 32)

  -- `for (i = start; i < tot_num_blocks; i += GRIDSIZE)`, with a launch for the blocks from i on.
  unfoldable pub sweep : ℕ → ℕ → ℕ → (ℕ → ℕ → List Op) → Device → Device
  sweep start tot ptr kernel =
      repeat ((tot + (gridsize - 1) - start) / gridsize)
        (λ j. launch_kernel (kernel (ptr + (start + gridsize * j) * s.bs)))

  -- The same with a check of the errors after each launch.
  unfoldable pub sweep_check : ℕ → ℕ → ℕ → (ℕ → ℕ → List Op) → Device × ℕ → Device × ℕ
  sweep_check start tot ptr kernel =
      repeat ((tot + (gridsize - 1) - start) / gridsize) (λ j (d, err).
        add_errors (launch_kernel (kernel (ptr + (start + gridsize * j) * s.bs)) d, err))

  -- `if(!(*err))` with the message PASS.
  unfoldable pub report : ℕ → Host → Host
  report n h = if h.err == 0 then record h { passed = h.passed ++ n ∷ [] } else h

  -- `p1` of `test4` and `test8`.
  abbrev pub pattern : ℕ
  pattern = if s.global_pattern == 0 then s.random 0 else s.global_pattern % 2 ^ 32

  module _ (ptr tot : ℕ) where
    abbrev end_ptr : ℕ
    end_ptr = ptr + tot * s.bs

    unfoldable pub test0_round : Device × ℕ → Device × ℕ
    test0_round (d, err) =
        sweep_check 0 tot ptr (λ a b. kernel_test0_read a end_ptr s.bs b)
          (sweep 0 tot ptr (λ a b. kernel_test0_write a end_ptr s.bs b) d, err)

    -- Reports no failure: the message PASS is logged whatever `*err` is.
    unfoldable pub test0 : Host → Host
    test0 h =
        let r =
          repeat s.num_passes (λ ite. test0_round)
            (add_errors (
              launch_kernel (λ b. kernel_test0_global_read ptr end_ptr)
                  (launch_kernel (λ b. kernel_test0_global_write ptr end_ptr) h.device),
              0,
            )) in
        record { device = r.0; err = r.1; passed = h.passed ++ 1 ∷ [] }

    unfoldable pub test1 : Host → Host
    test1 h =
        let d = sweep 0 tot ptr (λ a. kernel_test1_write s.bs a end_ptr) h.device in
        let r = sweep_check 0 tot ptr (λ a. kernel_test1_read s.bs a end_ptr) (d, h.err) in
        report 2 (record { device = r.0; err = r.1; passed = h.passed })

    unfoldable pub move_inv_test : ℕ → ℕ → Device → Device × ℕ
    move_inv_test p1 p2 d =
        sweep_check 0 tot ptr (λ a b. kernel_move_inv_read s.bs a end_ptr b p2)
          (sweep_check 0 tot ptr (λ a b. kernel_move_inv_readwrite s.bs a end_ptr b p1 p2)
            (sweep 0 tot ptr (λ a b. kernel_move_inv_write s.bs a end_ptr b p1) d, 0))

    -- The two runs of `test2` and `test3`, the second with the patterns exchanged.
    unfoldable pub both_ways : ℕ → ℕ → ℕ → Host → Host
    both_ways n p1 p2 h =
        let r = move_inv_test p1 p2 h.device in
        let r' = move_inv_test p2 p1 r.0 in
        report n (record { device = r'.0; err = (r.1 + r'.1) % 2 ^ 32; passed = h.passed })

    unfoldable pub test2 : Host → Host
    test2 = both_ways 3 0 (complement 32 0)

    unfoldable pub test3 : Host → Host
    test3 = both_ways 4 0x80808080 (complement 32 0x80808080)

    -- From the label on; `left` is `num_iterations - iteration`, and `first` says that `iteration`
    -- is 0.
    unfoldable pub test4_repeat : ℕ → Bool → Host → Host
    test4_repeat zero first h =
        let r = move_inv_test pattern (complement 32 pattern) h.device in
        let h' : Host = record { device = r.0; err = (h.err + r.1) % 2 ^ 32; passed = h.passed } in
        if (r.1 == 0) && first then record h' { passed = h.passed ++ 5 ∷ [] } else report 5 h'
    test4_repeat (suc left) first h =
        let r = move_inv_test pattern (complement 32 pattern) h.device in
        let h' : Host = record { device = r.0; err = (h.err + r.1) % 2 ^ 32; passed = h.passed } in
        let again = test4_repeat left false h' in
        if (r.1 == 0) && first then record h' { passed = h.passed ++ 5 ∷ [] } else again

    unfoldable pub test4 : Host → Host
    test4 = test4_repeat s.num_iterations true

    unfoldable pub test5_init_round : ℕ → Device → Device
    test5_init_round j d =
        launch_kernel (kernel_test5_init s.bs (ptr + gridsize * j * s.bs) end_ptr)
          (error_checking d).0

    unfoldable pub test5 : Host → Host
    test5 h =
        let d = repeat ((tot + (gridsize - 1)) / gridsize) test5_init_round h.device in
        let moved = sweep 0 tot ptr (λ a. kernel_test5_move s.bs a end_ptr) d in
        let r = sweep_check 0 tot ptr (λ a. kernel_test5_check s.bs a end_ptr) (moved, h.err) in
        report 6 (record { device = r.0; err = r.1; passed = h.passed })

    unfoldable pub movinv32 : ℕ → ℕ → ℕ → ℕ → Device → Device × ℕ
    movinv32 pat lb sval offset d =
        sweep_check 0 tot ptr
          (λ a b. kernel_movinv32_read s.bs a end_ptr s.threads_per_block pat lb sval offset)
          (sweep_check 0 tot ptr
            (λ a b. kernel_movinv32_readwrite s.bs a end_ptr b pat lb sval offset)
            (
              sweep 0 tot ptr (λ a b. kernel_movinv32_write s.bs a end_ptr b pat lb sval offset) d,
              0,
            ))

    unfoldable pub test6_round : ℕ → Device × ℕ → Device × ℕ
    test6_round i (d, err) =
        let once = movinv32 (2 ^ i) 1 0 i d in
        let twice = movinv32 (complement 32 (2 ^ i)) 0xfffffffe 1 i once.0 in
        (twice.0, ((err + once.1) % 2 ^ 32 + twice.1) % 2 ^ 32)

    unfoldable pub test6 : Host → Host
    test6 h =
        let r = repeat 32 test6_round (h.device, h.err) in
        report 7 (record { device = r.0; err = r.1; passed = h.passed })

    -- The random numbers in the first block.
    unfoldable pub copy_block : Device → Device
    copy_block d = record d {
      memory = repeat (s.bs / 4) (λ i. set_at (ptr + 4 * i) (s.random i)) d.memory;
    }

    unfoldable pub test7_round : Device × ℕ → Device × ℕ
    test7_round (d, err) =
        sweep_check 1 tot ptr (λ a b. kernel_test7_read s.bs a end_ptr b ptr)
          (sweep_check 1 tot ptr (λ a b. kernel_test7_readwrite s.bs a end_ptr b ptr)
            (sweep 1 tot ptr (λ a b. kernel_test7_write s.bs a end_ptr b ptr) d, err))

    unfoldable pub modtest : ℕ → ℕ → ℕ → Device → Device × ℕ
    modtest offset p1 p2 d =
        sweep_check 0 tot ptr
          (λ a b. kernel_modtest_read s.bs a end_ptr s.threads_per_block offset p1)
          (
            sweep 0 tot ptr
                (λ a b. kernel_modtest_write s.bs a end_ptr s.threads_per_block offset p1 p2) d,
            0,
          )

    unfoldable pub modtest_round : ℕ → Device × ℕ → Device × ℕ
    modtest_round i (d, err) =
        let r = modtest i pattern (complement 32 pattern) d in (r.0, (err + r.1) % 2 ^ 32)

    unfoldable pub test8_round : Device × ℕ → Device × ℕ
    test8_round = repeat 20 modtest_round

    -- The loops of `test7` and `test8` from their label on, with `*err = 0` before a jump back.
    unfoldable pub repeat_test : ℕ → (Device × ℕ → Device × ℕ) → ℕ → Bool → Host → Host
    repeat_test n round zero first h =
        let r = round (h.device, h.err) in
        let h' : Host = record { device = r.0; err = r.1; passed = h.passed } in
        if (r.1 == 0) && first then record h' { passed = h.passed ++ n ∷ [] } else report n h'
    repeat_test n round (suc left) first h =
        let r = round (h.device, h.err) in
        let h' : Host = record { device = r.0; err = r.1; passed = h.passed } in
        let again = repeat_test n round left false (record h' { err = 0 }) in
        if (r.1 == 0) && first then record h' { passed = h.passed ++ n ∷ [] } else again

    unfoldable pub test7 : Host → Host
    test7 h =
        repeat_test 8 test7_round s.num_iterations true (record h { device = copy_block h.device })

    unfoldable pub test8 : Host → Host
    test8 = repeat_test 9 test8_round s.num_iterations true

    -- The waits between the three parts are left out.
    unfoldable pub test9 : Host → Host
    test9 h =
        let ones = complement 32 0 in
        let d = sweep 0 tot ptr (λ a b. kernel_move_inv_write s.bs a end_ptr b 0) h.device in
        let r =
          sweep_check 0 tot ptr (λ a b. kernel_move_inv_readwrite s.bs a end_ptr b 0 ones)
            (d, h.err) in
        let r' = sweep_check 0 tot ptr (λ a b. kernel_move_inv_read s.bs a end_ptr b ones) r in
        report 10 (record { device = r'.0; err = r'.1; passed = h.passed })

    -- The loop of `MemWorker::run_tests` over the table of tests, with `err = 0` before each.
    unfoldable pub run_each : List (Host → Host) → Host → Host
    run_each [] h = h
    run_each (test ∷ tests) h = run_each tests (test (record h { err = 0 }))

    -- The first ten of the eleven tests of the table, whatever `enabled` says. The last, `test10`,
    -- which the source runs after them, is left out.
    unfoldable pub run_ten_tests : Host → Host
    run_ten_tests =
        run_each
          (test0 ∷ test1 ∷ test2 ∷ test3 ∷ test4 ∷ test5 ∷ test6 ∷ test7 ∷ test8 ∷ test9 ∷ [])
