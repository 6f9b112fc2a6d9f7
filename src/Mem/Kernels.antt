-- ===== src/Mem/Kernels.antt =====
-- The kernels of mem.so/src/rvs_memtest.cpp, as what a thread of the block `b` does. `bs` is
-- BLOCKSIZE, in the source 2^20; `ptr` and `end_ptr` are addresses.
use rocm_validation_suite.Prelude.{
  ℕ, zero, suc, ◌+◌, ◌-◌, ◌*◌, ◌/◌, ◌%◌, ◌^◌, List, [], ◌∷◌, ◌++◌, leb, ◌==◌, if◌then◌else◌,
}
use rocm_validation_suite.Mem.Device.{Value, const, load, inverted, Op, store, compare, complement}

-- `for (i = 0; i < n; i++)`
unfoldable pub rounds : ℕ → (ℕ → List Op) → List Op
rounds zero body = []
rounds (suc n) body = rounds n body ++ body n

module _ (bs : ℕ) where
  -- A kernel does nothing if its block lies behind the end.
  unfoldable pub in_block : ℕ → ℕ → ℕ → (ℕ → List Op) → List Op
  in_block ptr end_ptr b body =
      let base = ptr + b * bs in if leb end_ptr base then [] else body base

  module _ (ptr end_ptr b : ℕ) where
    unfoldable pub kernel_test1_write : List Op
    kernel_test1_write =
        in_block ptr end_ptr b
          (λ base. rounds (bs / 8) (λ i. store (base + 8 * i) (const (base + 8 * i)) ∷ []))

    unfoldable pub kernel_test1_read : List Op
    kernel_test1_read =
        in_block ptr end_ptr b
          (λ base. rounds (bs / 8) (λ i. compare (base + 8 * i) (const (base + 8 * i)) ∷ []))

    unfoldable pub kernel_move_inv_write : ℕ → List Op
    kernel_move_inv_write pattern =
        in_block ptr end_ptr b
          (λ base. rounds (bs / 4) (λ i. store (base + 4 * i) (const pattern) ∷ []))

    unfoldable pub kernel_move_inv_readwrite : ℕ → ℕ → List Op
    kernel_move_inv_readwrite p1 p2 = in_block ptr end_ptr b (λ base.
        rounds (bs / 4)
          (λ i. compare (base + 4 * i) (const p1) ∷ store (base + 4 * i) (const p2) ∷ []))

    unfoldable pub kernel_move_inv_read : ℕ → List Op
    kernel_move_inv_read pattern =
        in_block ptr end_ptr b
          (λ base. rounds (bs / 4) (λ i. compare (base + 4 * i) (const pattern) ∷ []))

    -- `p1` in round i of the loop, which goes by 16 elements.
    unfoldable pub test5_pattern : ℕ → ℕ
    test5_pattern zero = 1
    test5_pattern (suc i) =
        let shifted = test5_pattern i * 2 % 2 ^ 32 in if shifted == 0 then 1 else shifted

    unfoldable pub kernel_test5_init : List Op
    kernel_test5_init = in_block ptr end_ptr b (λ base. rounds (bs / 4 / 16) (λ i.
        let p1 = const (test5_pattern i) in
        let p2 = const (complement 32 (test5_pattern i)) in
        let pairs = λ (k : ℕ) (v : Value).
          store (base + 4 * (16 * i + k)) v ∷ store (base + 4 * (16 * i + k + 1)) v ∷ [] in
        pairs 0 p1
        ++ (pairs 2 p2
            ++ (pairs 4 p1
                ++ (pairs 6 p2 ++ (pairs 8 p1 ++ (pairs 10 p2 ++ (pairs 12 p1 ++ pairs 14 p2))))))))

    unfoldable pub kernel_test5_move : List Op
    kernel_test5_move = in_block ptr end_ptr b (λ base.
        let half_count = bs / 4 / 2 in
        let mid = base + 4 * half_count in
        rounds half_count (λ i. store (mid + 4 * i) (load (base + 4 * i)) ∷ [])
        ++ (rounds (half_count - 8) (λ i. store (base + 4 * (i + 8)) (load (mid + 4 * i)) ∷ [])
            ++ rounds 8 (λ i. store (base + 4 * i) (load (mid + 4 * (half_count - 8 + i))) ∷ [])))

    unfoldable pub kernel_test5_check : List Op
    kernel_test5_check = in_block ptr end_ptr b (λ base.
        rounds (bs / 4 / 2)
          (λ i. compare (base + 4 * (2 * i)) (load (base + 4 * (2 * i + 1))) ∷ []))

    module _ (start_ptr : ℕ) where
      unfoldable pub kernel_test7_write : List Op
      kernel_test7_write =
          in_block ptr end_ptr b
            (λ base. rounds (bs / 4) (λ i. store (base + 4 * i) (load (start_ptr + 4 * i)) ∷ []))

      unfoldable pub kernel_test7_readwrite : List Op
      kernel_test7_readwrite = in_block ptr end_ptr b (λ base. rounds (bs / 4) (λ i.
          compare (base + 4 * i) (load (start_ptr + 4 * i))
          ∷ store (base + 4 * i) (inverted (start_ptr + 4 * i))
          ∷ []))

      unfoldable pub kernel_test7_read : List Op
      kernel_test7_read = in_block ptr end_ptr b (λ base.
          rounds (bs / 4) (λ i. compare (base + 4 * i) (inverted (start_ptr + 4 * i)) ∷ []))

  -- The next pattern: `k++`, and at 32 the pattern `lb`, else a shift with `sval` put in; `sval`
  -- is 0 or 1, so that the lowest bit of the shifted pattern is free for it.
  unfoldable pub next_pattern : ℕ → ℕ → ℕ × ℕ → ℕ × ℕ
  next_pattern lb sval (k, pat) =
      if leb 32 (k + 1) then (0, lb) else (k + 1, pat * 2 % 2 ^ 32 + sval)

  unfoldable pub pattern_at : ℕ → ℕ → ℕ → ℕ → ℕ → ℕ × ℕ
  pattern_at pattern lb sval offset zero = (offset, pattern)
  pattern_at pattern lb sval offset (suc i) =
      next_pattern lb sval (pattern_at pattern lb sval offset i)

  module _ (ptr end_ptr b pattern lb sval offset : ℕ) where
    unfoldable pub kernel_movinv32_write : List Op
    kernel_movinv32_write = in_block ptr end_ptr b (λ base.
        rounds (bs / 4)
          (λ i. store (base + 4 * i) (const (pattern_at pattern lb sval offset i).1) ∷ []))

    unfoldable pub kernel_movinv32_readwrite : List Op
    kernel_movinv32_readwrite = in_block ptr end_ptr b (λ base. rounds (bs / 4) (λ i.
        let pat = (pattern_at pattern lb sval offset i).1 in
        compare (base + 4 * i) (const pat) ∷ store (base + 4 * i) (const (complement 32 pat)) ∷ []))

  -- The block of this kernel is `hipBlockDim_x`, whatever the index of the thread's block is.
  module _ (ptr end_ptr block_dim : ℕ) where
    unfoldable pub kernel_movinv32_read : ℕ → ℕ → ℕ → ℕ → List Op
    kernel_movinv32_read pattern lb sval offset = in_block ptr end_ptr block_dim (λ base.
        rounds (bs / 4) (λ i.
          compare (base + 4 * i) (const (complement 32 (pattern_at pattern lb sval offset i).1))
          ∷ []))

    -- `for (i = offset; i < n; i += MOD_SZ)`, for an offset below MOD_SZ.
    unfoldable pub every_20th : ℕ → ℕ → (ℕ → List Op) → List Op
    every_20th offset n body = rounds ((n + 19 - offset) / 20) (λ j. body (offset + 20 * j))

    unfoldable pub kernel_modtest_write : ℕ → ℕ → ℕ → List Op
    kernel_modtest_write offset p1 p2 = in_block ptr end_ptr block_dim (λ base.
        every_20th offset (bs / 4) (λ i. store (base + 4 * i) (const p1) ∷ [])
        ++ rounds (bs / 4)
            (λ i. if i % 20 == offset then [] else store (base + 4 * i) (const p2) ∷ []))

    unfoldable pub kernel_modtest_read : ℕ → ℕ → List Op
    kernel_modtest_read offset p1 =
        in_block ptr end_ptr block_dim
          (λ base. every_20th offset (bs / 4) (λ i. compare (base + 4 * i) (const p1) ∷ []))
