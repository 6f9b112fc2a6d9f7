-- ===== src/Mem/Cycle.antt =====
-- What one thread of the moving inversions of mem.so/src/rvs_memtest.cpp does to its block.
use rocm_validation_suite.Prelude.{
  ℕ, zero, suc, ◌+◌, ◌*◌, ◌/◌, ◌≡◌, refl, ◌≢◌, ◌<◌, ap, ◌∙◌, false, List, [], ◌∷◌, ◌++◌, arith, leb,
  ◌==◌, if◌then◌else◌, ==_iff,
}
use rocm_validation_suite.Mem.Device.{
  Device, set_at, max_err_record_count, const, Op, store, compare, record_error, exec, exec_all,
}
use rocm_validation_suite.Mem.Kernels.{
  rounds, in_block, kernel_move_inv_write, kernel_move_inv_readwrite, kernel_move_inv_read,
}

exec_all-append :
    (xs ys : List Op) (s : Device × ℕ) → exec_all (xs ++ ys) s ≡ exec_all ys (exec_all xs s)
unfolding exec_all
exec_all-append [] ys s = refl
exec_all-append (x ∷ xs) ys s = exec_all-append xs ys (exec x s)

-- The memory with `v` in the first n elements of a block.
abbrev pub fill : ℕ → ℕ → ℕ → (ℕ → ℕ) → ℕ → ℕ
fill zero base v m = m
fill (suc n) base v m = set_at (base + 4 * n) v (fill n base v m)

fill_inside : (n base v : ℕ) (m : ℕ → ℕ) (i : ℕ) → i < n → fill n base v m (base + 4 * i) ≡ v
fill_inside zero base v m i lt = absurd (omega arith)
fill_inside (suc n) base v m i lt = ground (arith, fill_inside n base v m i)

fill_outside :
    (n base v : ℕ) (m : ℕ → ℕ) (a : ℕ)
    → ((i : ℕ) → i < n → a ≢ base + 4 * i)
    → fill n base v m a ≡ m a
fill_outside zero base v m a out = refl
fill_outside (suc n) base v m a out =
    ground (arith, out n, fill_outside n base v m a (λ i lt. out i (omega arith)))

compare_equal :
    (a v : ℕ) (d : Device) (p : ℕ) → d.memory a ≡ v → exec (compare a (const v)) (d, p) ≡ (d, p)
unfolding exec
compare_equal a v d p e = rw ((==_iff (d.memory a) v).1 e) refl

compare_other :
    (a v : ℕ) (d : Device) (p : ℕ)
    → (d.memory a == v) ≡ false
    → exec (compare a (const v)) (d, p) ≡ record_error a v (d.memory a) (d, p)
unfolding exec
compare_other a v d p e = rw e refl

module _ (base : ℕ) where
  write_rounds :
      (n v : ℕ) (d : Device) (p : ℕ)
      → exec_all (rounds n (λ i. store (base + 4 * i) (const v) ∷ [])) (d, p)
        ≡ (record d { memory = fill n base v d.memory }, p)
  unfolding rounds exec_all exec
  write_rounds zero v d p = refl
  write_rounds (suc n) v d p =
      exec_all-append (rounds n (λ i. store (base + 4 * i) (const v) ∷ [])) _ (d, p)
      ∙ ap (exec_all (store (base + 4 * n) (const v) ∷ [])) (write_rounds n v d p)

  readwrite_rounds :
      (n p1 p2 : ℕ) (d : Device) (p : ℕ)
      → ((i : ℕ) → i < n → d.memory (base + 4 * i) ≡ p1)
      → exec_all
          (rounds n (λ i. compare (base + 4 * i) (const p1) ∷ store (base + 4 * i) (const p2) ∷ []))
          (d, p)
        ≡ (record d { memory = fill n base p2 d.memory }, p)
  unfolding rounds exec_all exec
  readwrite_rounds zero p1 p2 d p h = refl
  readwrite_rounds (suc n) p1 p2 d p h =
      exec_all-append
        (rounds n (λ i. compare (base + 4 * i) (const p1) ∷ store (base + 4 * i) (const p2) ∷ [])) _
        (d, p)
      ∙ ap (exec_all (compare (base + 4 * n) (const p1) ∷ store (base + 4 * n) (const p2) ∷ []))
          (readwrite_rounds n p1 p2 d p (λ i lt. h i (omega arith)))
      ∙ ap (exec (store (base + 4 * n) (const p2))) (
          compare_equal (base + 4 * n) p1 (record d { memory = fill n base p2 d.memory }) p
            (fill_outside n base p2 d.memory (base + 4 * n) (λ i lt. omega arith)
              ∙ h n (omega arith)))

  -- How many of the first n elements differ.
  abbrev pub mismatches : ℕ → ℕ → (ℕ → ℕ) → ℕ
  mismatches zero v m = 0
  mismatches (suc n) v m = mismatches n v m + (if m (base + 4 * n) == v then 0 else 1)

  read_rounds_equal :
      (n v : ℕ) (d : Device) (p : ℕ)
      → ((i : ℕ) → i < n → d.memory (base + 4 * i) ≡ v)
      → exec_all (rounds n (λ i. compare (base + 4 * i) (const v) ∷ [])) (d, p) ≡ (d, p)
  unfolding rounds exec_all
  read_rounds_equal zero v d p h = refl
  read_rounds_equal (suc n) v d p h =
      exec_all-append (rounds n (λ i. compare (base + 4 * i) (const v) ∷ [])) _ (d, p)
      ∙ ap (exec_all (compare (base + 4 * n) (const v) ∷ []))
          (read_rounds_equal n v d p (λ i lt. h i (omega arith)))
      ∙ compare_equal (base + 4 * n) v d p (h n (omega arith))

  -- The thread's pointer after a comparison, if the word that it reads is below the limit.
  compare_offset :
      (a v : ℕ) (d : Device) (p : ℕ)
      → d.count p < max_err_record_count
      → ((exec (compare a (const v)) (d, p)).1 ≡ p + (if d.memory a == v then 0 else 1))
        × ((exec (compare a (const v)) (d, p)).0.memory ≡ d.memory)
        × ((exec (compare a (const v)) (d, p)).0.count ≡ d.count)
  unfolding exec record_error
  compare_offset a v d p lt = ground arith

  read_rounds :
      (n v : ℕ) (d : Device) (p : ℕ)
      → ((q : ℕ) → d.count q < max_err_record_count)
      → let r = exec_all (rounds n (λ i. compare (base + 4 * i) (const v) ∷ [])) (d, p) in
        (r.1 ≡ p + mismatches n v d.memory) × (r.0.memory ≡ d.memory) × (r.0.count ≡ d.count)
  unfolding rounds exec_all
  read_rounds zero v d p h = (omega arith, refl, refl)
  read_rounds (suc n) v d p h =
      let before = exec_all (rounds n (λ i. compare (base + 4 * i) (const v) ∷ [])) (d, p) in
      let (offset, same, counts) = read_rounds n v d p h in
      let last = compare_offset (base + 4 * n) v before.0 before.1 (rw counts (h before.1)) in
      rw
        (exec_all-append (rounds n (λ i. compare (base + 4 * i) (const v) ∷ []))
          (compare (base + 4 * n) (const v) ∷ []) (d, p))
        (
          ground (arith, offset, last.0, ap (λ m. m (base + 4 * n)) same),
          last.1 ∙ same,
          last.2 ∙ counts,
        )

leb-false : (m n : ℕ) → n < m → leb m n ≡ false
leb-false m n h = ground arith

module _ (bs ptr end_ptr b : ℕ) (inside : ptr + b * bs < end_ptr) where
  abbrev base : ℕ
  base = ptr + b * bs

  in_block_inside : (body : ℕ → List Op) → in_block bs ptr end_ptr b body ≡ body base
  unfolding in_block
  in_block_inside body = rw (leb-false end_ptr base inside) refl

  run_write :
      (v : ℕ) (d : Device) (p : ℕ)
      → exec_all (kernel_move_inv_write bs ptr end_ptr b v) (d, p)
        ≡ (record d { memory = fill (bs / 4) base v d.memory }, p)
  unfolding kernel_move_inv_write
  run_write v d p =
      ap (λ ops. exec_all ops (d, p))
        (in_block_inside (λ base. rounds (bs / 4) (λ i. store (base + 4 * i) (const v) ∷ [])))
      ∙ write_rounds base (bs / 4) v d p

  run_readwrite :
      (p1 p2 : ℕ) (d : Device) (p : ℕ)
      → ((i : ℕ) → i < bs / 4 → d.memory (base + 4 * i) ≡ p1)
      → exec_all (kernel_move_inv_readwrite bs ptr end_ptr b p1 p2) (d, p)
        ≡ (record d { memory = fill (bs / 4) base p2 d.memory }, p)
  unfolding kernel_move_inv_readwrite
  run_readwrite p1 p2 d p h =
      ap (λ ops. exec_all ops (d, p))
        (in_block_inside (λ base.
          rounds (bs / 4)
            (λ i. compare (base + 4 * i) (const p1) ∷ store (base + 4 * i) (const p2) ∷ [])))
      ∙ readwrite_rounds base (bs / 4) p1 p2 d p h

  run_read :
      (v : ℕ) (d : Device) (p : ℕ)
      → exec_all (kernel_move_inv_read bs ptr end_ptr b v) (d, p)
        ≡ exec_all (rounds (bs / 4) (λ i. compare (base + 4 * i) (const v) ∷ [])) (d, p)
  unfolding kernel_move_inv_read
  run_read v d p =
      ap (λ ops. exec_all ops (d, p))
        (in_block_inside (λ base. rounds (bs / 4) (λ i. compare (base + 4 * i) (const v) ∷ [])))

  -- On a memory without faults, a thread that writes p1 to a block before the end, reads and
  -- inverts it, and reads p2 again records no error, and leaves p2 in the block and the rest of
  -- the memory as it was.
  pub move_inv_clean :
      (p1 p2 : ℕ) (d : Device) (p : ℕ)
      → let program =
          kernel_move_inv_write bs ptr end_ptr b p1
          ++ (kernel_move_inv_readwrite bs ptr end_ptr b p1 p2
              ++ kernel_move_inv_read bs ptr end_ptr b p2) in
        (d' : Device) × (exec_all program (d, p) ≡ (d', p))
        × (d' ≡ record d { memory = d'.memory })
        × ((i : ℕ) → i < bs / 4 → d'.memory (base + 4 * i) ≡ p2)
        × ((a : ℕ) → ((i : ℕ) → i < bs / 4 → a ≢ base + 4 * i) → d'.memory a ≡ d.memory a)
  move_inv_clean p1 p2 d p =
      let n = bs / 4 in
      let write = kernel_move_inv_write bs ptr end_ptr b p1 in
      let readwrite = kernel_move_inv_readwrite bs ptr end_ptr b p1 p2 in
      let read = kernel_move_inv_read bs ptr end_ptr b p2 in
      let d1 : Device = record d { memory = fill n base p1 d.memory } in
      let d2 : Device = record d { memory = fill n base p2 d1.memory } in
      (
        d2,
        exec_all-append write (readwrite ++ read) (d, p)
            ∙ ap (exec_all (readwrite ++ read)) (run_write p1 d p)
            ∙ exec_all-append readwrite read (d1, p)
            ∙ ap (exec_all read) (run_readwrite p1 p2 d1 p (fill_inside n base p1 d.memory))
            ∙ run_read p2 d2 p
            ∙ read_rounds_equal base n p2 d2 p (fill_inside n base p2 d1.memory),
        refl,
        fill_inside n base p2 d1.memory,
        λ a out. fill_outside n base p2 d1.memory a out ∙ fill_outside n base p1 d.memory a out,
      )

  -- A thread that reads a block before the end moves its pointer by the number of elements that
  -- differ from the pattern, if it reads words below the limit there.
  pub move_inv_read_counts :
      (pattern : ℕ) (d : Device) (p : ℕ)
      → ((q : ℕ) → d.count q < max_err_record_count)
      → (exec_all (kernel_move_inv_read bs ptr end_ptr b pattern) (d, p)).1
        ≡ p + mismatches base (bs / 4) pattern d.memory
  move_inv_read_counts pattern d p h =
      ap (λ r. r.1) (run_read pattern d p) ∙ (read_rounds base (bs / 4) pattern d p h).0
