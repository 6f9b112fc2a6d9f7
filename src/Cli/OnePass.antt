-- ===== src/Cli/OnePass.antt =====
-- The loop of rvs/src/rvscli.cpp, with its stack and buffers, against one pass over the arguments.
use rocm_validation_suite.Prelude.{
  ℕ, zero, suc, ◌+◌, ◌≤◌, ◌≡◌, refl, inl, inr, Option, none, some, List, [], ◌∷◌, ◌++◌, Text, codes,
  Map, find, put, arith, length, is_nil, if◌then◌else◌, Option-cases,
}
use rocm_validation_suite.Cli.Grammar.{EContext, eof, value, optionalvalue, command, grammar}
use rocm_validation_suite.Cli.Loop.{Cli, Status, success, failure, parse_loop, extract_path, parse}
use rocm_validation_suite.Cli.Reads.{IsEntry, grammar-IsEntry, empty_unknown}

-- What one pass expects next, with the name of the option that waits for its value.
pub data Pending : Type 0 where
  start : Pending
  needs : Text → Pending
  may : Text → Pending

pub data Result : Type 0 where
  ok : Map Text → Result
  err : Text → Result

abbrev pub missing : Text → Result
missing n = err (codes "syntax error: value expected after " ++ n)

abbrev pub stray : Text → Map Text → Result
stray [] m = ok m
stray (x ∷ t) m = err (codes "unexpected command line argument: " ++ (x ∷ t))

abbrev pub begin : List EContext → Text → Map Text → Pending × Map Text
begin (value ∷ _) n m = (needs n, m)
begin (optionalvalue ∷ _) n m = (may n, m)
begin _ n m = (start, put n [] m)

unfoldable pub read : Pending → List Text → Map Text → Result
read start [] m = ok m
read start (t ∷ ts) m = elim (find t grammar) [
  | none ↦ stray t m
  | some o ↦ let b = begin o.new_context o.name m in read b.0 ts b.1
]
read (needs n) [] m = missing n
read (needs n) ([] ∷ ts) m = missing n
read (needs n) ((x ∷ v) ∷ ts) m = elim (find (x ∷ v) grammar) [
  | none ↦ read start ts (put n (x ∷ v) m)
  | some o ↦ missing n
]
read (may n) [] m = ok (put n [] m)
read (may n) ([] ∷ ts) m = read start ts (put n [] m)
read (may n) ((x ∷ v) ∷ ts) m = elim (find (x ∷ v) grammar) [
  | none ↦ read start ts (put n (x ∷ v) m)
  | some o ↦ let b = begin o.new_context o.name (put n [] m) in read b.0 ts b.1
]

abbrev pub outcome : Option (Option (Status × Cli)) → Option Result
outcome (some (some (success, c))) = some (ok c.opt)
outcome (some (some (failure, c))) = some (err c.errstr)
outcome _ = none

abbrev cli : List Text → List EContext → Text → Map Text → Text → Cli
cli ts ctx cur m e = record {
  rest = ts;
  errstr = e;
  current_option = cur;
  current_value = [];
  context = ctx;
  opt = m;
}

-- The options once the buffers are emitted.
abbrev flush : Text → Map Text → Map Text
flush cur m = if is_nil cur then m else put cur [] m

record Agree (f : ℕ) (ts : List Text) : Type 0 where
  at_start :
      (cur : Text) (m : Map Text) (e : Text)
      → outcome (parse_loop f (cli ts (command ∷ eof ∷ []) cur m e))
        ≡ some (read start ts (flush cur m))
  at_needs :
      (x : ℕ) (n : Text) (m : Map Text) (e : Text)
      → outcome (parse_loop f (cli ts (value ∷ command ∷ eof ∷ []) (x ∷ n) m e))
        ≡ some (read (needs (x ∷ n)) ts m)
  at_may :
      (x : ℕ) (n : Text) (m : Map Text) (e : Text)
      → outcome (parse_loop f (cli ts (optionalvalue ∷ command ∷ eof ∷ []) (x ∷ n) m e))
        ≡ some (read (may (x ∷ n)) ts m)

-- After an option the loop stands as the one pass does.
Agree-begin :
    (f : ℕ) (ts : List Text) (name : Text) (ctx : List EContext) (m : Map Text) (e : Text)
    → Agree f ts
    → IsEntry (record { name = name; new_context = ctx })
    → outcome (parse_loop f (cli ts ctx name m e))
      ≡ some (read (begin ctx name m).0 ts (begin ctx name m).1)
Agree-begin f ts [] ctx m e a h = absurd (h.named refl)
Agree-begin f ts (x ∷ n) ctx m e a h = elim h.shape [
  | inl flag ↦ rw flag (a.at_start (x ∷ n) m e)
  | inr (inl valued) ↦ rw valued (a.at_needs x n m e)
  | inr (inr optional) ↦ rw optional (a.at_may x n m e)
]

module _ (f : ℕ) (t : Text) (ts : List Text) (a : Agree f ts) where
  start_step :
      (cur : Text) (m : Map Text) (e : Text)
      → outcome (parse_loop (suc f) (cli (t ∷ ts) (command ∷ eof ∷ []) cur m e))
        ≡ some (read start (t ∷ ts) (flush cur m))
  unfolding parse_loop read
  start_step cur m e = elim (Option-cases (find t grammar)) [
    | inl unknown ↦ ground (arith, unknown)
    | inr (o, known) ↦ ground (
      arith,
      known,
      Agree-begin f ts o.name o.new_context (flush cur m) e a (grammar-IsEntry t known),
    )
  ]

  needs_step :
      (x : ℕ) (n : Text) (m : Map Text) (e : Text)
      → outcome (parse_loop (suc f) (cli (t ∷ ts) (value ∷ command ∷ eof ∷ []) (x ∷ n) m e))
        ≡ some (read (needs (x ∷ n)) (t ∷ ts) m)
  unfolding parse_loop read
  needs_step x n m e = ground (arith, a.at_start [] (put (x ∷ n) t m) e)

  may_step :
      (x : ℕ) (n : Text) (m : Map Text) (e : Text)
      → outcome (parse_loop (suc f) (cli (t ∷ ts) (optionalvalue ∷ command ∷ eof ∷ []) (x ∷ n) m e))
        ≡ some (read (may (x ∷ n)) (t ∷ ts) m)
  unfolding parse_loop read
  may_step x n m e = elim (Option-cases (find t grammar)) [
    | inl unknown ↦
        ground (arith, unknown, a.at_start [] (put (x ∷ n) t m) e, a.at_start (x ∷ n) m e)
    | inr (o, known) ↦ ground (
      arith,
      known,
      a.at_start (x ∷ n) m e,
      Agree-begin f ts o.name o.new_context (put (x ∷ n) [] m) e a (grammar-IsEntry t known),
    )
  ]

agree : (f : ℕ) (ts : List Text) → length ts + 2 ≤ f → Agree f ts
unfolding parse_loop read
agree zero ts h = absurd (omega arith)
agree (suc zero) ts h = absurd (omega arith)
agree (suc (suc f)) [] h = record {
  at_start = λ cur m e. ground (arith, empty_unknown);
  at_needs = λ x n m e. ground arith;
  at_may = λ x n m e. ground (arith, empty_unknown);
}
agree (suc f) (t ∷ ts) h =
    let a = agree f ts (omega arith) in
    record {
      at_start = start_step f t ts a;
      at_needs = needs_step f t ts a;
      at_may = may_step f t ts a;
    }

pub outcome-parse :
    (exe : Option Text) (args : List Text) (opt : Map Text)
    → outcome (parse exe args opt) ≡ some (read start args (extract_path exe opt))
unfolding parse
outcome-parse exe args opt =
    (agree (length args + 3) args (omega arith)).at_start [] (extract_path exe opt) []
