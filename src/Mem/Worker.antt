-- ===== src/Mem/Worker.antt =====
-- How `MemWorker::run` of mem.so/src/rvs_memworker.cpp allocates the blocks of 2^20 bytes to test.
-- Numbers of blocks and the size that is allocated have 32 bits, sizes of memories 64; what HIP
-- answers is a parameter.
use rocm_validation_suite.Prelude.{
  ℕ, zero, suc, ◌+◌, ◌-◌, ◌*◌, ◌/◌, ◌%◌, ◌^◌, Bool, not, Option, none, some, ltb, ◌==◌,
  if◌then◌else◌,
}

abbrev pub save_blocks : ℕ
save_blocks = 16

abbrev pub smaller : ℕ → ℕ → ℕ
smaller x y = if ltb x y then x else y

-- `a - MEM_NUM_SAVE_BLOCKS` at a width.
unfoldable pub less_saved : ℕ → ℕ → ℕ
less_saved w a = (a % 2 ^ w + 2 ^ w - save_blocks) % 2 ^ w

-- Before the loop: the memory of the device, the limit of the action (0 for none), and the memory
-- that is free.
unfoldable pub wanted_blocks : ℕ → ℕ → ℕ → ℕ
unfolding less_saved
wanted_blocks totmem max_num_blocks free =
    let all = less_saved 64 (totmem / 2 ^ 20) % 2 ^ 32 in
    let limited =
      if max_num_blocks == 0 then all else smaller (max_num_blocks + save_blocks) all % 2 ^ 32 in
    smaller limited (less_saved 64 (free / 2 ^ 20)) % 2 ^ 32

-- `unsigned int alloc_size = tot_num_blocks* BLOCKSIZE`
unfoldable pub alloc_size : ℕ → ℕ
alloc_size tot = tot * 2 ^ 20 % 2 ^ 32

pub data Allocation : Type 0 where
  no_blocks aborted : Allocation
  allocated : ℕ → ℕ → Allocation

-- The loop that allocates: whether an allocation of a size succeeds, and whether an error is
-- pending after it. `HIP_CHECK` ends the process where an allocation fails, so another round comes
-- only from an error that was pending. The test `tot_num_blocks <= 0` is on an unsigned number.
-- `none` means that the fuel ran out.
unfoldable pub alloc_loop : (ℕ → Bool) → (ℕ → Bool) → ℕ → ℕ → Option Allocation
unfolding less_saved alloc_size
alloc_loop malloc pending zero tot = none
alloc_loop malloc pending (suc fuel) tot =
    let tot' = less_saved 32 tot in
    let rest = alloc_loop malloc pending fuel tot' in
    if tot' == 0
    then some no_blocks
    else if not (malloc (alloc_size tot'))
    then some aborted
    else if pending (alloc_size tot')
    then rest
    else some (allocated tot' (alloc_size tot'))
