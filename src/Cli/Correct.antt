-- ===== src/Cli/Correct.antt =====
-- `parse` of rvs/src/rvscli.cpp against the meaning of the command line.
use mathlib.Core.Path.{subst}
use rocm_validation_suite.Prelude.{
  ◌≡◌, refl, inl, inr, Option, none, some, List, [], ◌∷◌, Text, Map, find, put, arith, Option-cases,
  ap,
}
use rocm_validation_suite.Cli.Grammar.{OptBase, grammar}
use rocm_validation_suite.Cli.Loop.{Cli, Status, success, failure, extract_path, parse}
use rocm_validation_suite.Cli.Reads.{
  Reads, stop, stop_at_empty, flag, valued, given, omitted, given_empty, IsValued, IsOptional,
  EndOrOption, grammar-IsEntry, empty_unknown,
}
use rocm_validation_suite.Cli.OnePass.{
  Pending, start, needs, may, Result, ok, begin, read, outcome, outcome-parse,
}

abbrev Means : Pending → List Text → Map Text → Map Text → Type 0
Means start ts m m' = Reads ts m m'
Means (needs n) ts m m' =
    (t : Text) (o : OptBase)
    → find t grammar ≡ some o
    → IsValued o
    → o.name ≡ n
    → Reads (t ∷ ts) m m'
Means (may n) ts m m' =
    (t : Text) (o : OptBase)
    → find t grammar ≡ some o
    → IsOptional o
    → o.name ≡ n
    → Reads (t ∷ ts) m m'

begin_means :
    (t : Text) (ts : List Text) (o : OptBase) (m m' : Map Text)
    → find t grammar ≡ some o
    → Means (begin o.new_context o.name m).0 ts (begin o.new_context o.name m).1 m'
    → Reads (t ∷ ts) m m'
begin_means t ts o m m' known h = elim (grammar-IsEntry t known).shape [
  | inl f ↦ flag o known f (rw f at h)
  | inr (inl v) ↦ (rw v at h) t o known v refl
  | inr (inr p) ↦ (rw p at h) t o known p refl
]

-- The first argument is an option that takes a value, or may take one.
read_sound :
    (p : Pending) (ts : List Text) (m : Map Text) {m' : Map Text}
    → read p ts m ≡ ok m'
    → Means p ts m m'
unfolding read
read_sound start [] m {m'} h = subst (Reads [] m) (ground arith) stop
read_sound start ([] ∷ ts) m {m'} h =
    subst (Reads ([] ∷ ts) m) (ground (arith, empty_unknown)) stop_at_empty
read_sound start ((x ∷ t) ∷ ts) m {m'} h = elim (Option-cases (find (x ∷ t) grammar)) [
  | inl unknown ↦ absurd (ground (arith, unknown))
  | inr (o, known) ↦ begin_means (x ∷ t) ts o m m' known (
      read_sound (begin o.new_context o.name m).0 ts (begin o.new_context o.name m).1
        (ground (arith, known)))
]
read_sound (needs n) [] m h = cc
read_sound (needs n) ([] ∷ ts) m h = cc
read_sound (needs n) ((x ∷ v) ∷ ts) m {m'} h = elim (Option-cases (find (x ∷ v) grammar)) [
  | inl unknown ↦
      let rest : Reads ts (put n (x ∷ v) m) m' =
        read_sound start ts (put n (x ∷ v) m) (ground (arith, unknown)) in
      λ t o known shape named. valued o known shape (λ e. cc) unknown (rw named rest)
  | inr (o, known) ↦ absurd (ground (arith, known))
]
read_sound (may n) [] m {m'} h = λ t o known shape named.
    omitted o known shape tt (rw named (subst (Reads [] (put n [] m)) (ground arith) stop))
read_sound (may n) ([] ∷ ts) m {m'} h =
    let rest : Reads ts (put n [] m) m' = read_sound start ts (put n [] m) h in
    λ t o known shape named. given_empty o known shape (rw named rest)
read_sound (may n) ((x ∷ v) ∷ ts) m {m'} h = elim (Option-cases (find (x ∷ v) grammar)) [
  | inl unknown ↦
      let rest : Reads ts (put n (x ∷ v) m) m' =
        read_sound start ts (put n (x ∷ v) m) (ground (arith, unknown)) in
      λ t o known shape named. given o known shape (λ e. cc) unknown (rw named rest)
  | inr (q, option) ↦
      let rest : Reads ((x ∷ v) ∷ ts) (put n [] m) m' =
        begin_means (x ∷ v) ts q (put n [] m) m' option (
          read_sound (begin q.new_context q.name (put n [] m)).0 ts
            (begin q.new_context q.name (put n [] m)).1 (ground (arith, option))) in
      λ t o known shape named. omitted o known shape (q, option) (rw named rest)
]

may_omit :
    (n : Text) (ts : List Text) (m : Map Text)
    → EndOrOption ts
    → read (may n) ts m ≡ read start ts (put n [] m)
unfolding read
may_omit n [] m h = refl
may_omit n ([] ∷ ts) m (o, known) = absurd (ground (arith, known, empty_unknown))
may_omit n ((x ∷ v) ∷ ts) m (o, known) = ground (arith, known)

read_complete : {ts : List Text} {m m' : Map Text} → Reads ts m m' → read start ts m ≡ ok m'
unfolding read
read_complete stop = refl
read_complete stop_at_empty = ground (arith, empty_unknown)
read_complete (flag o known shape r) = ground (arith, known, shape, read_complete r)
read_complete (valued {v = []} o known shape there unknown r) = absurd (there refl)
read_complete (valued {v = x ∷ v} o known shape there unknown r) =
    ground (arith, known, shape, unknown, read_complete r)
read_complete (given {v = []} o known shape there unknown r) = absurd (there refl)
read_complete (given {v = x ∷ v} o known shape there unknown r) =
    ground (arith, known, shape, unknown, read_complete r)
read_complete (omitted {ts = ts} {m = m} o known shape next r) =
    ground (arith, known, shape, may_omit o.name ts m next, read_complete r)
read_complete (given_empty o known shape r) = ground (arith, known, shape, read_complete r)

-- A result of `parse` from what it amounts to.
abbrev Ended : Option (Option (Status × Cli)) → Type 0
Ended p = (status : Status) × (c : Cli) × (p ≡ some (some (status, c)))

ended : (p : Option (Option (Status × Cli))) {r : Result} → outcome p ≡ some r → Ended p
ended none h = cc
ended (some none) h = cc
ended (some (some (status, c))) h = (status, c, refl)

succeeded :
    (p : Option (Option (Status × Cli))) {m : Map Text}
    → outcome p ≡ some (ok m)
    → (c : Cli) × (p ≡ some (some (success, c))) × (c.opt ≡ m)
succeeded none h = cc
succeeded (some none) h = cc
succeeded (some (some (success, c))) h = (c, refl, ground arith)
succeeded (some (some (failure, c))) h = cc

-- Parsing always ends with one of its two statuses: the stack of continuations never runs empty,
-- and the loop ends within three rounds more than there are arguments.
pub parse_total :
    (exe : Option Text) (args : List Text) (opt : Map Text)
    → (status : Status) × (c : Cli) × (parse exe args opt ≡ some (some (status, c)))
parse_total exe args opt = ended (parse exe args opt) (outcome-parse exe args opt)

-- If `parse` returns 0, the command line is well formed, and the options that `parse` leaves are
-- those that the command line means, stored over "pwd" and what was there.
pub parse_sound :
    (exe : Option Text) (args : List Text) (opt : Map Text) {c : Cli}
    → parse exe args opt ≡ some (some (success, c))
    → Reads args (extract_path exe opt) c.opt
parse_sound exe args opt h =
    read_sound start args (extract_path exe opt) (ground (arith, h, outcome-parse exe args opt))

-- If the command line is well formed, `parse` returns 0 with exactly the options that it means.
pub parse_complete :
    (exe : Option Text) (args : List Text) (opt : Map Text) {m' : Map Text}
    → Reads args (extract_path exe opt) m'
    → (c : Cli) × (parse exe args opt ≡ some (some (success, c))) × (c.opt ≡ m')
parse_complete exe args opt r =
    succeeded (parse exe args opt) (rw (outcome-parse exe args opt) (ap some (read_complete r)))
