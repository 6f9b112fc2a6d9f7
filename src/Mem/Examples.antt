-- ===== src/Mem/Examples.antt =====
-- The memory tests on small memories.
use rocm_validation_suite.Prelude.{
  ℕ, ◌+◌, ◌-◌, ◌*◌, ◌/◌, ◌^◌, ◌≡◌, ◌≢◌, ◌<◌, refl, true, false, some, [], ◌∷◌, ◌++◌, arith,
}
use rocm_validation_suite.Mem.Device.{Device, exec_all}
use rocm_validation_suite.Mem.Kernels.{
  kernel_move_inv_write, kernel_move_inv_readwrite, kernel_move_inv_read,
}
use rocm_validation_suite.Mem.Host.{Setup, Host, run_ten_tests}
use rocm_validation_suite.Mem.Silent.{run_ten_tests_blind}
use rocm_validation_suite.Mem.Sequential.{run_threads, run_threads-Steps}
use rocm_validation_suite.Mem.Cycle.{move_inv_clean}
use rocm_validation_suite.Mem.Worker.{
  less_saved, wanted_blocks, alloc_size, no_blocks, aborted, allocated, alloc_loop,
}

abbrev blank : Device
blank = record {
  memory = λ a. a;
  count = λ q. 0;
  failed = λ i. 0;
  expected = λ i. 0;
  current = λ i. 0;
}

abbrev small : Setup
small = record {
  bs = 32;
  blocks = 2;
  threads_per_block = 1;
  num_passes = 1;
  num_iterations = 1;
  global_pattern = 5;
  random = λ i. i;
  launch = run_threads;
}

abbrev host : Host
host = record { device = blank; err = 0; passed = [] }

run_ten_tests_blind_example :
    ((run_ten_tests small 0 2 host).device.count 0 ≡ 0)
    × ((run_ten_tests small 0 2 host).passed ≡ 1 ∷ 2 ∷ 3 ∷ 4 ∷ 5 ∷ 6 ∷ 7 ∷ 8 ∷ 9 ∷ 10 ∷ [])
run_ten_tests_blind_example = run_ten_tests_blind small run_threads-Steps 0 2 host refl

move_inv_clean_example :
    let program =
      kernel_move_inv_write 32 0 64 1 0
      ++ (kernel_move_inv_readwrite 32 0 64 1 0 255 ++ kernel_move_inv_read 32 0 64 1 255) in
    (d' : Device) × (exec_all program (blank, 0) ≡ (d', 0))
    × (d' ≡ record blank { memory = d'.memory })
    × ((i : ℕ) → i < 32 / 4 → d'.memory (0 + 1 * 32 + 4 * i) ≡ 255)
    × ((a : ℕ) → ((i : ℕ) → i < 32 / 4 → a ≢ 0 + 1 * 32 + 4 * i) → d'.memory a ≡ blank.memory a)
move_inv_clean_example = move_inv_clean 32 0 64 1 (omega arith) 0 255 blank 0

-- A device of 16 GiB that is free: 16352 blocks to test, for which 4064 blocks are allocated.
wanted_all : wanted_blocks (2 ^ 34) 0 (2 ^ 34) ≡ 16368
unfolding wanted_blocks less_saved
wanted_all = refl

alloc_wraps :
    alloc_loop (λ size. true) (λ size. false) 1 16368 ≡ some (allocated 16352 (4064 * 2 ^ 20))
unfolding alloc_loop alloc_size less_saved
alloc_wraps = refl

-- A first allocation that fails ends the process.
alloc_fails : alloc_loop (λ size. false) (λ size. false) 1 16368 ≡ some aborted
unfolding alloc_loop alloc_size less_saved
alloc_fails = refl

-- Eight blocks and none to spare: the number wraps round.
alloc_few :
    alloc_loop (λ size. true) (λ size. false) 1 8 ≡ some (allocated (2 ^ 32 - 8) (2 ^ 32 - 2 ^ 23))
unfolding alloc_loop alloc_size less_saved
alloc_few = refl

alloc_none : alloc_loop (λ size. true) (λ size. false) 1 16 ≡ some no_blocks
unfolding alloc_loop alloc_size less_saved
alloc_none = refl
