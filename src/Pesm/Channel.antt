-- ===== src/Pesm/Channel.antt =====
-- What the worker of pesm.so/src/worker.cpp makes of the values of one GPU.
use rocm_validation_suite.Prelude.{
  ℕ, ◌≡◌, refl, ◌∙◌, inl, inr, Bool, false, not, ◌||◌, List, [], ◌∷◌, Text, codes, str_eq,
  str_eq_iff, is_nil, ◌==◌, arith, Bool-cases, if◌then◌else◌,
}
use rocm_validation_suite.Pesm.Numbered.{lookup, lookup-assign}
use rocm_validation_suite.Pesm.Worker.{Channel, compare_value, first_value}

-- The value kept of a GPU, and its flag.
abbrev pub Kept : Type 0
Kept = Text × Text

unfoldable pub kept : ℕ → Channel → Kept
kept g ch = (lookup g ch.old, lookup g ch.change)

unfoldable pub first_kept : Text → Kept → Kept
first_kept v (o, c) = if is_nil o then (v, c) else (o, c)

unfoldable pub next_kept : Text → Kept → Kept
next_kept v (o, c) =
    if str_eq o v then (o, if is_nil c then codes "false" else c) else (v, codes "true")

kept-first_value :
    (g k : ℕ) (v : Text) (ch : Channel)
    → kept g (first_value k v ch) ≡ (if k == g then first_kept v (kept g ch) else kept g ch)
unfolding kept first_value first_kept
kept-first_value g k v ch = ground (arith, lookup-assign k g v ch.old)

kept-compare_value :
    (g k : ℕ) (v : Text) (ch : Channel)
    → kept g (compare_value k v ch).0 ≡ (if k == g then next_kept v (kept g ch) else kept g ch)
unfolding kept compare_value next_kept
kept-compare_value g k v ch = ground (
  arith,
  lookup-assign k g v ch.old,
  lookup-assign k g (codes "false") ch.change,
  lookup-assign k g (codes "true") ch.change,
)

pub first_value_self :
    (g : ℕ) (v : Text) (ch : Channel) → kept g (first_value g v ch) ≡ first_kept v (kept g ch)
first_value_self g v ch = kept-first_value g g v ch ∙ ground arith

pub compare_value_self :
    (g : ℕ) (v : Text) (ch : Channel) → kept g (compare_value g v ch).0 ≡ next_kept v (kept g ch)
compare_value_self g v ch = kept-compare_value g g v ch ∙ ground arith

pub first_value_other :
    (g k : ℕ) (v : Text) (ch : Channel) → (k == g) ≡ false → kept g (first_value k v ch) ≡ kept g ch
first_value_other g k v ch h = kept-first_value g k v ch ∙ ground (arith, h)

pub compare_value_other :
    (g k : ℕ) (v : Text) (ch : Channel)
    → (k == g) ≡ false
    → kept g (compare_value k v ch).0 ≡ kept g ch
compare_value_other g k v ch h = kept-compare_value g k v ch ∙ ground (arith, h)

unfoldable pub all_kept : Kept → List Text → Kept
all_kept q [] = q
all_kept q (v ∷ vs) = all_kept (next_kept v q) vs

-- Whether a value of the list differs from the one before it, the first from x.
unfoldable pub changes : Text → List Text → Bool
changes x [] = false
changes x (v ∷ vs) = not (str_eq x v) || changes v vs

-- The flag of a GPU by the values seen of it: none before the second value.
unfoldable pub verdict : List Text → Text
verdict [] = []
verdict (x ∷ []) = []
verdict (x ∷ v ∷ vs) = if changes x (v ∷ vs) then codes "true" else codes "false"

later : Text → Text → List Text → Text
later x c [] = c
later x c (v ∷ vs) =
    if changes x (v ∷ vs) then codes "true" else if is_nil c then codes "false" else c

later_step :
    (x c v : Text) (vs : List Text)
    → later (next_kept v (x, c)).0 (next_kept v (x, c)).1 vs ≡ later x c (v ∷ vs)
unfolding later changes next_kept
later_step x c v [] = ground (arith, str_eq_iff x v)
later_step x c v (u ∷ vs) = elim (Bool-cases (str_eq x v)) [
  | inl same ↦ ground (arith, same, (str_eq_iff x v).0 same)
  | inr other ↦ ground (arith, other)
]

all_kept_flag : (x c : Text) (vs : List Text) → (all_kept (x, c) vs).1 ≡ later x c vs
unfolding all_kept later
all_kept_flag x c [] = refl
all_kept_flag x c (v ∷ vs) =
    all_kept_flag (next_kept v (x, c)).0 (next_kept v (x, c)).1 vs ∙ later_step x c v vs

verdict-later : (x : Text) (vs : List Text) → later x [] vs ≡ verdict (x ∷ vs)
unfolding later verdict
verdict-later x [] = refl
verdict-later x (v ∷ vs) = refl

pub all_kept-verdict : (x : Text) (vs : List Text) → (all_kept (x, []) vs).1 ≡ verdict (x ∷ vs)
all_kept-verdict x vs = all_kept_flag x [] vs ∙ verdict-later x vs
