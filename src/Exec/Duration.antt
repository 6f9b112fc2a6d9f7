-- ===== src/Exec/Duration.antt =====
-- From the option -t, by `do_yaml_properties` of rvs/src/rvsexec_do_yaml.cpp, to the field that
-- src/rvsactionbase.cpp reads it into.
use mathlib.Core.List.{append_assoc}
use rocm_validation_suite.Prelude.{
  ℕ, ◌*◌, ◌<◌, ◌%◌, ◌^◌, ◌≡◌, refl, sym, ap, ◌∙◌, inl, inr, Bool, false, Option, none, some, List,
  [], ◌∷◌, ◌++◌, Text, codes, Map, find, put, find-put, find-put_self, arith, Option-cases, str_eq,
}
use rocm_validation_suite.Util.Number.{to_string}
use rocm_validation_suite.Util.Number.Correct.{rvs_util_parse-to_string}
use rocm_validation_suite.Action.{Action, property_set, has_property, property_get_int_or}
use rocm_validation_suite.Action.Keys.{read_duration, report}
use rocm_validation_suite.Exec.Properties.{
  Entry, Numbers, Sets, and_sets, set_entries, set_parallel, set_duration, duration_text, full,
  do_yaml_properties,
}
use rocm_validation_suite.Exec.Actions.{cli_properties}

-- The calls of `property_set` of an action, in order.
unfoldable pub set_all : List (Text × Text) → Action → Action
set_all [] a = a
set_all (kv ∷ calls) a = set_all calls (property_set kv.0 kv.1 a)

set_all-append :
    (xs ys : List (Text × Text)) (a : Action) → set_all (xs ++ ys) a ≡ set_all ys (set_all xs a)
unfolding set_all
set_all-append [] ys a = refl
set_all-append (kv ∷ xs) ys a = set_all-append xs ys (property_set kv.0 kv.1 a)

property_set_property :
    (key val : Text) (a : Action) → (property_set key val a).property ≡ put key val a.property
unfolding property_set
property_set_property key val a = elim (Option-cases (find key a.property)) [
  | inl e ↦ ground (arith, e)
  | inr (old, e) ↦ ground (arith, e)
]

cli_apart : (k : Text) → str_eq (codes "cli." ++ k) (codes "duration") ≡ false
unfolding str_eq
cli_apart k = refl

-- The options are set under names of their own.
set_all-cli :
    (opt : Map Text) (a : Action)
    → find (codes "duration") (set_all (cli_properties opt) a).property
      ≡ find (codes "duration") a.property
unfolding set_all cli_properties
set_all-cli [] a = refl
set_all-cli ((k, v) ∷ opt) a =
    set_all-cli opt (property_set (codes "cli." ++ k) v a)
    ∙ (ap (find (codes "duration")) (property_set_property (codes "cli." ++ k) v a)
        ∙ (find-put (codes "cli." ++ k) (codes "duration") v a.property
            ∙ ground (arith, cli_apart k)))

-- The calls of the second part come last.
and_sets_last :
    (s t : Sets) (calls : List (Text × Text)) (n : ℕ)
    → and_sets s t ≡ (calls, some n)
    → (first : List (Text × Text)) × (last : List (Text × Text)) × (m : ℕ) × (t ≡ (last, some m))
      × (calls ≡ first ++ last)
and_sets_last (c, none) t calls n e = absurd cc
and_sets_last (c, some m) (c', none) calls n e = absurd cc
and_sets_last (c, some m) (c', some m') calls n e = (c, c', m', refl, sym (ap (λ r. r.0) e))

find_last :
    (first : List (Text × Text)) (val : Text) (opt : Map Text) (a : Action)
    → find
        (codes "duration")
        (set_all ((first ++ (codes "duration", val) ∷ []) ++ cli_properties opt) a).property
      ≡ some val
unfolding set_all
find_last first val opt a =
    let b = set_all first a in
    ap (λ a'. find (codes "duration") a'.property)
      (set_all-append (first ++ (codes "duration", val) ∷ []) (cli_properties opt) a
        ∙ ap (set_all (cli_properties opt)) (set_all-append first ((codes "duration", val) ∷ []) a))
    ∙ (set_all-cli opt (property_set (codes "duration") val b)
        ∙ (ap (find (codes "duration")) (property_set_property (codes "duration") val b)
            ∙ find-put_self (codes "duration") val b.property))

read_duration_number :
    (a : Action) (bsts : Bool) (m : ℕ)
    → m < 2 ^ 64
    → find (codes "duration") a.property ≡ some (to_string m)
    → ((read_duration (a, bsts)).0.property_duration ≡ m) × ((read_duration (a, bsts)).1 ≡ bsts)
unfolding read_duration report property_get_int_or has_property
read_duration_number a bsts m h e =
    let parsed = rvs_util_parse-to_string 64 m a.property_duration h in
    (ground (arith, e, parsed), ground (arith, e, parsed))

abbrev duration_of : ℕ → Text
duration_of k = to_string (k * 1000 % 2 ^ 64)

set_duration_given :
    (numbers : Numbers) (k : ℕ) (duration : Text) (o : Option Text)
    → o ≡ some duration
    → numbers.stoull duration ≡ some k
    → set_duration numbers o ≡ ((codes "duration", duration_of k) ∷ [], some 0)
unfolding set_duration duration_text
set_duration_given numbers k duration o given number = ground (arith, given, number)

-- The call for the duration is the last one.
duration_last :
    (numbers : Numbers) (opt : Map Text) (module_name : Text) (node : List Entry)
    (calls : List (Text × Text)) (n k : ℕ) (duration : Text)
    → find (codes "-t") opt ≡ some duration
    → numbers.stoull duration ≡ some k
    → do_yaml_properties numbers opt module_name node ≡ (calls, some n)
    → (first : List (Text × Text)) × (calls ≡ first ++ (codes "duration", duration_of k) ∷ [])
unfolding do_yaml_properties
duration_last numbers opt module_name node calls n k duration given number e =
    let entries = set_entries numbers module_name (full numbers (find (codes "-i") opt)) node in
    let parallel = set_parallel numbers (find (codes "-p") opt) in
    let timed = set_duration numbers (find (codes "-t") opt) in
    let (first, last, m, e', all) = and_sets_last entries (and_sets parallel timed) calls n e in
    let (first', last', m', e'', all') = and_sets_last parallel timed last m e' in
    let told =
      sym e'' ∙ set_duration_given numbers k duration (find (codes "-t") opt) given number in
    (
      first ++ first',
      all
          ∙ (ap (λ l. first ++ l) (all' ∙ ap (λ l. first' ++ l) (ap (λ r. r.0) told))
              ∙ sym (append_assoc first first' ((codes "duration", duration_of k) ∷ []))),
    )

-- Where the option -t stands for the number k and no key of the action throws, the action reads
-- the duration of k * 1000 milliseconds, modulo 2^64, and finds no error in it: neither what the
-- file says of the duration nor the other options change that.
pub duration_reaches :
    (numbers : Numbers) (opt : Map Text) (module_name : Text) (node : List Entry)
    (calls : List (Text × Text)) (n k : ℕ) (duration : Text) (a : Action) (bsts : Bool)
    → find (codes "-t") opt ≡ some duration
    → numbers.stoull duration ≡ some k
    → do_yaml_properties numbers opt module_name node ≡ (calls, some n)
    → ((read_duration (set_all (calls ++ cli_properties opt) a, bsts)).0.property_duration
        ≡ k * 1000 % 2 ^ 64)
      × ((read_duration (set_all (calls ++ cli_properties opt) a, bsts)).1 ≡ bsts)
duration_reaches numbers opt module_name node calls n k duration a bsts given number e =
    let (first, all) =
      duration_last numbers opt module_name node calls n k duration given number e in
    read_duration_number (set_all (calls ++ cli_properties opt) a) bsts (k * 1000 % 2 ^ 64)
      (omega arith)
      (ap (λ c. find (codes "duration") (set_all (c ++ cli_properties opt) a).property) all
        ∙ find_last first (duration_of k) opt a)
