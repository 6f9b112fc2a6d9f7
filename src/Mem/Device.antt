-- ===== src/Mem/Device.antt =====
-- The memory of a GPU as the kernels of mem.so/src/rvs_memtest.cpp use it, and one step of a
-- thread. A kernel reads and writes elements of one width: `memory` maps the address of an element
-- to its value. A comparison with its record is one step.
use rocm_validation_suite.Prelude.{
  ℕ, ◌+◌, ◌-◌, ◌*◌, ◌^◌, List, [], ◌∷◌, ◌++◌, ltb, ◌==◌, if◌then◌else◌,
}

-- `count` is what lies from `ptCntOfError` on, of which one word is allocated; the others are the
-- arrays `ptFailedAdress`, `ptExpectedValue` and `ptCurrentValue`.
pub record Device : Type 0 where
  pub memory : ℕ → ℕ
  pub count : ℕ → ℕ
  pub failed : ℕ → ℕ
  pub expected : ℕ → ℕ
  pub current : ℕ → ℕ

abbrev pub set_at : ℕ → ℕ → (ℕ → ℕ) → ℕ → ℕ
set_at a v m x = if x == a then v else m x

abbrev pub max_err_record_count : ℕ
max_err_record_count = 10

-- `ptErrCount` is a parameter of the kernel, so each thread has its own: the offset `p`. The
-- expression `*ptErrCount++` reads the word at it, and then increments the pointer.
unfoldable pub record_error : ℕ → ℕ → ℕ → Device × ℕ → Device × ℕ
record_error addr expect value (d, p) =
    let at = d.count p in
    if ltb at max_err_record_count
    then (
      record d {
        failed = set_at at addr d.failed;
        expected = set_at at expect d.expected;
        current = set_at at value d.current;
      },
      p + 1,
    )
    else (d, p)

-- A constant, the element at an address, and the complement of that element of 32 bits.
pub data Value : Type 0 where
  const load inverted : ℕ → Value

unfoldable pub complement : ℕ → ℕ → ℕ
complement w x = 2 ^ w - 1 - x

unfoldable pub value_of : Value → Device → ℕ
unfolding complement
value_of (const n) d = n
value_of (load a) d = d.memory a
value_of (inverted a) d = complement 32 (d.memory a)

-- Two elements of 32 bits, read as one of 64.
unfoldable pub long_at : ℕ → Device → ℕ
long_at a d = d.memory a + 2 ^ 32 * d.memory (a + 4)

-- `*a = v`, and `if (*a != v) { … }` with the record of the error, also for an element that is
-- read as one of 64 bits; `report_long` makes the record without a comparison.
pub data Op : Type 0 where
  store compare compare_long report_long : ℕ → Value → Op

unfoldable pub exec : Op → Device × ℕ → Device × ℕ
unfolding record_error value_of long_at
exec (store a v) (d, p) = (record d { memory = set_at a (value_of v d) d.memory }, p)
exec (compare a v) (d, p) =
    if d.memory a == value_of v d then (d, p) else record_error a (value_of v d) (d.memory a) (d, p)
exec (compare_long a v) (d, p) =
    if long_at a d == value_of v d
    then (d, p)
    else record_error a (value_of v d) (long_at a d) (d, p)
exec (report_long a v) (d, p) = record_error a (value_of v d) (long_at a d) (d, p)

unfoldable pub exec_all : List Op → Device × ℕ → Device × ℕ
exec_all [] s = s
exec_all (op ∷ ops) s = exec_all ops (exec op s)

-- A thread of a launch: its pointer and what is left of its program.
abbrev pub Thread : Type 0
Thread = ℕ × List Op

-- Any thread may take the next step, and any element may change by a fault of the memory.
pub data Step : List Thread × Device → List Thread × Device → Type 0 where
  turn :
      (before after : List Thread) (op : Op) (ops : List Op) (p : ℕ) (d : Device)
      → Step
          (before ++ (p, op ∷ ops) ∷ after, d)
          (before ++ ((exec op (d, p)).1, ops) ∷ after, (exec op (d, p)).0)
  fault :
      (ts : List Thread) (d : Device) (a v : ℕ)
      → Step (ts, d) (ts, record d { memory = set_at a v d.memory })

pub data Steps (s : List Thread × Device) : List Thread × Device → Type 0 where
  here : Steps s s
  next : {t u : List Thread × Device} → Steps s t → Step t u → Steps s u
