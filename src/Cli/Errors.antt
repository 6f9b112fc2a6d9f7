-- ===== src/Cli/Errors.antt =====
-- What the error text of `parse` says, rvs/src/rvscli.cpp.
use mathlib.Core.List.{Memᴰ}
use rocm_validation_suite.Prelude.{
  ◌≡◌, refl, ◌≢◌, ◌⊎◌, inl, inr, Option, none, some, List, [], ◌∷◌, ◌++◌, Text, codes, Map, find,
  put, arith, Option-cases,
}
use rocm_validation_suite.Cli.Grammar.{OptBase, grammar}
use rocm_validation_suite.Cli.Loop.{Cli, failure, extract_path, parse}
use rocm_validation_suite.Cli.Reads.{IsValued, grammar-IsEntry, empty_unknown}
use rocm_validation_suite.Cli.OnePass.{Pending, start, needs, may, err, begin, read, outcome-parse}

-- Why a command line is refused: an argument that is no option stands where an option is due, or
-- an option is not followed by the value that it takes.
pub data Rejected (args : List Text) (e : Text) : Type 0 where
  unexpected :
      (t : Text)
      → Memᴰ t args
      → t ≢ []
      → find t grammar ≡ none
      → e ≡ codes "unexpected command line argument: " ++ t
      → Rejected args e
  no_value :
      (t : Text) (o : OptBase)
      → Memᴰ t args
      → find t grammar ≡ some o
      → IsValued o
      → e ≡ codes "syntax error: value expected after " ++ o.name
      → Rejected args e

weaken : {ts : List Text} {e : Text} (t : Text) → Rejected ts e → Rejected (t ∷ ts) e
weaken t (unexpected u m full unknown says) = unexpected u (Memᴰ.tail m) full unknown says
weaken t (no_value u o m known shape says) = no_value u o (Memᴰ.tail m) known shape says

abbrev Why : Pending → List Text → Text → Type 0
Why (needs n) ts e = Rejected ts e ⊎ (e ≡ codes "syntax error: value expected after " ++ n)
Why _ ts e = Rejected ts e

begin-Why :
    (t : Text) (ts : List Text) (o : OptBase) (m : Map Text) (e : Text)
    → find t grammar ≡ some o
    → Why (begin o.new_context o.name m).0 ts e
    → Rejected (t ∷ ts) e
begin-Why t ts o m e known h = elim (grammar-IsEntry t known).shape [
  | inl f ↦ weaken t (rw f at h)
  | inr (inl v) ↦ elim (rw v at h) [
    | inl later ↦ weaken t later
    | inr says ↦ no_value t o (Memᴰ.head refl) known v says
  ]
  | inr (inr p) ↦ weaken t (rw p at h)
]

read-rejects :
    (p : Pending) (ts : List Text) (m : Map Text) {e : Text} → read p ts m ≡ err e → Why p ts e
unfolding read
read-rejects start [] m h = cc
read-rejects start ([] ∷ ts) m h = absurd (ground (arith, empty_unknown))
read-rejects start ((x ∷ t) ∷ ts) m {e} h = elim (Option-cases (find (x ∷ t) grammar)) [
  | inl unknown ↦ unexpected (x ∷ t) (Memᴰ.head refl) (λ q. cc) unknown (ground (arith, unknown))
  | inr (o, known) ↦ begin-Why (x ∷ t) ts o m e known (
      read-rejects (begin o.new_context o.name m).0 ts (begin o.new_context o.name m).1
        (ground (arith, known)))
]
read-rejects (needs n) [] m h = inr (ground arith)
read-rejects (needs n) ([] ∷ ts) m h = inr (ground arith)
read-rejects (needs n) ((x ∷ v) ∷ ts) m {e} h = elim (Option-cases (find (x ∷ v) grammar)) [
  | inl unknown ↦
      inl (weaken (x ∷ v) (read-rejects start ts (put n (x ∷ v) m) (ground (arith, unknown))))
  | inr (o, known) ↦ inr (ground (arith, known))
]
read-rejects (may n) [] m h = cc
read-rejects (may n) ([] ∷ ts) m h = weaken [] (read-rejects start ts (put n [] m) h)
read-rejects (may n) ((x ∷ v) ∷ ts) m {e} h = elim (Option-cases (find (x ∷ v) grammar)) [
  | inl unknown ↦ weaken (x ∷ v) (read-rejects start ts (put n (x ∷ v) m) (ground (arith, unknown)))
  | inr (o, known) ↦ begin-Why (x ∷ v) ts o (put n [] m) e known (
      read-rejects (begin o.new_context o.name (put n [] m)).0 ts
        (begin o.new_context o.name (put n [] m)).1 (ground (arith, known)))
]

-- If `parse` returns -1, its error text names an argument of the command line that is not empty
-- and is no option, or an option of the command line that takes a value, as the one at fault.
pub parse_failure :
    (exe : Option Text) (args : List Text) (opt : Map Text) {c : Cli}
    → parse exe args opt ≡ some (some (failure, c))
    → Rejected args c.errstr
parse_failure exe args opt h =
    read-rejects start args (extract_path exe opt) (ground (arith, h, outcome-parse exe args opt))
