-- ===== src/Mem/Walk.antt =====
-- The kernels of test 0 of mem.so/src/rvs_memtest.cpp, which walk a bit through the address.
use Prim.Native.Nat.{bit_or}
use rocm_validation_suite.Prelude.{
  ℕ, zero, suc, ◌+◌, ◌*◌, ◌%◌, ◌^◌, List, [], ◌∷◌, leb, ◌==◌, if◌then◌else◌,
}
use rocm_validation_suite.Mem.Device.{const, Op, store, compare, compare_long, report_long}

-- The loop, with the visit of an address. An address has 64 bits, and the mask goes from 2^2 to
-- 2^63, at which the address lies behind any end; so 62 rounds are enough.
unfoldable pub walk : (ℕ → ℕ → Op) → ℕ → ℕ → ℕ → ℕ → ℕ → List Op
walk visit zero orig_ptr end_ptr pattern mask = []
walk visit (suc fuel) orig_ptr end_ptr pattern mask =
    let ptr = bit_or orig_ptr mask in
    let passed_over = walk visit fuel orig_ptr end_ptr pattern (mask * 2) in
    let rest = walk visit fuel orig_ptr end_ptr (pattern * 2 % 2 ^ 32) (mask * 2) in
    if ptr == orig_ptr
    then passed_over
    else if leb end_ptr ptr
    then []
    else visit ptr pattern ∷ rest

module _ (ptr end_ptr : ℕ) where
  unfoldable pub kernel_test0_global_write : List Op
  unfolding walk
  kernel_test0_global_write =
      store ptr (const 1) ∷ walk (λ a pattern. store a (const pattern)) 62 ptr end_ptr 1 4

  -- In the loop the record stands outside of any comparison.
  unfoldable pub kernel_test0_global_read : List Op
  unfolding walk
  kernel_test0_global_read =
      compare_long ptr (const 1)
      ∷ walk (λ a pattern. report_long a (const pattern)) 62 ptr end_ptr 1 4

  module _ (bs b : ℕ) where
    unfoldable pub kernel_test0_write : List Op
    unfolding walk
    kernel_test0_write =
        let orig_ptr = ptr + b * bs in
        if leb end_ptr orig_ptr
        then []
        else store orig_ptr (const 1)
          ∷ walk (λ a pattern. store a (const pattern)) 62 orig_ptr (orig_ptr + bs) 1 4

    unfoldable pub kernel_test0_read : List Op
    unfolding walk
    kernel_test0_read =
        let orig_ptr = ptr + b * bs in
        if leb end_ptr orig_ptr
        then []
        else compare orig_ptr (const 1)
          ∷ walk (λ a pattern. compare a (const pattern)) 62 orig_ptr (orig_ptr + bs) 1 4
