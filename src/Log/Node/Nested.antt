-- ===== src/Log/Node/Nested.antt =====
-- The JSON text of a node is well nested: src/rvslognode*.cpp, src/rvsminnode.cpp.
use rocm_validation_suite.Prelude.{
  ℕ, zero, suc, ◌-◌, ◌≡◌, refl, ◌≢◌, Bool, true, false, Option, none, some, List, [], ◌∷◌, ◌++◌,
  Text, codes, All, All-append, All-weaken, Option-cases, inl, inr, ◌==◌, if◌then◌else◌, arith,
  length, ◌∙◌, ◌≤◌,
}
use rocm_validation_suite.Util.Number.{to_string}
use rocm_validation_suite.Util.Number.Correct.{to_string-digits}
use rocm_validation_suite.Log.Node.{
  Node, log_node, log_node_int, log_node_string, log_node_rec, log_list_node, min_node, Nodes, nil,
  cons, blanks, quoted, time_text, level_field, time_field, signed, separator, to_json, children,
}

-- What is open at a place of a JSON text: the brackets, innermost first, and whether a string is.
pub record Place : Type 0 where
  pub in_string : Bool
  pub opened : List ℕ

abbrev pub outside : List ℕ → Place
outside opened = record { in_string = false; opened = opened }

close : ℕ → List ℕ → Option Place
close c [] = none
close c (b ∷ opened) = if b == c then some (outside opened) else none

step : ℕ → Place → Option Place
unfolding close
step c p =
    if p.in_string
    then if c == 34 then some (outside p.opened) else if c == 92 then none else some p
    else if c == 34
    then some (record { in_string = true; opened = p.opened })
    else if c == b'{'
    then some (outside (c ∷ p.opened))
    else if c == b'['
    then some (outside (c ∷ p.opened))
    else if c == b'}'
    then close b'{' p.opened
    else if c == b']'
    then close b'[' p.opened
    else some p

-- Reads a text from a place; `none` is a bracket that closes what is not open, or an escape.
unfoldable pub walk : Text → Place → Option Place
unfolding step
walk [] p = some p
walk (c ∷ s) p = elim (step c p) [ none ↦ none | some q ↦ walk s q ]

walk-append : (s t : Text) (p q : Place) → walk s p ≡ some q → walk (s ++ t) p ≡ walk t q
unfolding walk
walk-append [] t p q h = ground arith
walk-append (c ∷ s) t p q h = elim (Option-cases (step c p)) [
  | inl stuck ↦ absurd (ground (arith, stuck))
  | inr (r, moved) ↦ ground (arith, moved, walk-append s t r q (ground (arith, moved)))
]

-- A text that may stand in a JSON string as it is.
abbrev pub IsPlain : Text → Type 0
IsPlain = All (λ c. (c ≢ 34) × (c ≢ 92))

-- A text that holds no quote and no bracket.
abbrev pub IsBare : Text → Type 0
IsBare = All (λ c. (c ≢ 34) × (c ≢ b'{') × (c ≢ b'}') × (c ≢ b'[') × (c ≢ b']'))

walk_bare :
    (s : Text) (opened : List ℕ) → IsBare s → walk s (outside opened) ≡ some (outside opened)
unfolding walk
walk_bare [] opened h = refl
walk_bare (c ∷ s) opened h = ground (arith, h.0, walk_bare s opened h.1)

walk_plain :
    (s : Text) (opened : List ℕ)
    → IsPlain s
    → walk s (record { in_string = true; opened = opened })
      ≡ some (record { in_string = true; opened = opened })
unfolding walk
walk_plain [] opened h = refl
walk_plain (c ∷ s) opened h = ground (arith, h.0, walk_plain s opened h.1)

to_string-IsBare : (n : ℕ) → IsBare (to_string n)
to_string-IsBare n =
    All-weaken (λ c. (b'0' ≤ c) × (c ≤ b'9')) _ (to_string n) (λ c h. omega arith)
      (to_string-digits n)

to_string-IsPlain : (n : ℕ) → IsPlain (to_string n)
to_string-IsPlain n =
    All-weaken (λ c. (b'0' ≤ c) × (c ≤ b'9')) _ (to_string n) (λ c h. omega arith)
      (to_string-digits n)

blanks-IsPlain : (n : ℕ) → IsPlain (blanks n)
unfolding blanks
blanks-IsPlain zero = tt
blanks-IsPlain (suc n) = ((omega arith, omega arith), blanks-IsPlain n)

time_text-IsPlain : (sec usec : ℕ) → IsPlain (time_text sec usec)
unfolding time_text
time_text-IsPlain sec usec =
    All-append _ (blanks (6 - length (to_string sec)) ++ to_string sec) _
      (All-append _ (blanks (6 - length (to_string sec))) _ (blanks-IsPlain _)
        (to_string-IsPlain sec))
      (All-append _ (codes ".") _ ((omega arith, omega arith), tt)
        (All-append _ (to_string usec) _ (to_string-IsPlain usec) (blanks-IsPlain _)))

-- Texts that leave the place outside of strings as it is.
abbrev pub Still : Text → Type 0
Still s = (opened : List ℕ) → walk s (outside opened) ≡ some (outside opened)

-- Such a text in front is passed over.
pub pass :
    (s t : Text) (opened : List ℕ)
    → Still s
    → walk (s ++ t) (outside opened) ≡ walk t (outside opened)
pass s t opened h = walk-append s t (outside opened) (outside opened) (h opened)

pub quoted-Still : (s : Text) → IsPlain s → Still (quoted s)
unfolding quoted walk
quoted-Still s h opened = walk-append s (codes "\"") _ _ (walk_plain s opened h)

-- The names and string values in a node hold no quote and no backslash. Brackets may stand there.
unfoldable mutual
  pub IsClean : Node → Type 0
  IsClean (log_node name child) = IsPlain name × AreClean child
  IsClean (log_node_int name negative n) = IsPlain name
  IsClean (log_node_string name val) = IsPlain name × IsPlain val
  IsClean (log_node_rec name level sec usec child) = AreClean child
  IsClean (log_list_node name level child) = IsPlain name × AreClean child
  IsClean (min_node name level named child) = IsPlain name × AreClean child

  pub AreClean : Nodes → Type 0
  AreClean nil = Unit
  AreClean (cons n ns) = IsClean n × AreClean ns

signed-Still : (negative : Bool) (n : ℕ) → Still (signed negative n)
unfolding signed walk
signed-Still true n opened = walk_bare (to_string n) opened (to_string-IsBare n)
signed-Still false n opened = walk_bare (to_string n) opened (to_string-IsBare n)

separator-Still : (ns : Nodes) → Still (separator ns)
unfolding separator walk
separator-Still nil opened = refl
separator-Still (cons n ns) opened = refl

loglevel-IsPlain : IsPlain (codes "loglevel")
loglevel-IsPlain = omega arith

time-IsPlain : IsPlain (codes "time")
time-IsPlain = omega arith

indent-IsBare : (lead : Text) → IsBare lead → IsBare (lead ++ codes "  ")
indent-IsBare lead h = All-append _ lead (codes "  ") h (omega arith)

level_field-Still : (lead : Text) (level : ℕ) → IsBare lead → Still (level_field lead level)
unfolding level_field walk
level_field-Still lead level l o =
    pass (lead ++ codes "  ")
      (quoted (codes "loglevel") ++ (codes " : " ++ (to_string level ++ codes ","))) o
      (λ o'. walk_bare (lead ++ codes "  ") o' (indent-IsBare lead l))
    ∙ pass (quoted (codes "loglevel")) (codes " : " ++ (to_string level ++ codes ",")) o
        (quoted-Still (codes "loglevel") loglevel-IsPlain)
    ∙ pass (to_string level) (codes ",") o
        (λ o'. walk_bare (to_string level) o' (to_string-IsBare level))

time_field-Still : (lead : Text) (sec usec : ℕ) → IsBare lead → Still (time_field lead sec usec)
unfolding time_field walk
time_field-Still lead sec usec l o =
    pass (lead ++ codes "  ")
      (quoted (codes "time") ++ (codes " : " ++ (quoted (time_text sec usec) ++ codes ","))) o
      (λ o'. walk_bare (lead ++ codes "  ") o' (indent-IsBare lead l))
    ∙ pass (quoted (codes "time")) (codes " : " ++ (quoted (time_text sec usec) ++ codes ",")) o
        (quoted-Still (codes "time") time-IsPlain)
    ∙ pass (quoted (time_text sec usec)) (codes ",") o
        (quoted-Still (time_text sec usec) (time_text-IsPlain sec usec))

mutual
  unfolding to_json walk IsClean

  nested : (lead : Text) (n : Node) → IsBare lead → IsClean n → Still (to_json lead n)
  nested lead (log_node name child) l h o =
      pass lead _ o (λ o'. walk_bare lead o' l)
      ∙ pass (quoted name) _ o (quoted-Still name h.0)
      ∙ pass (children (lead ++ codes "  ") child) _ (b'{' ∷ o)
          (all_nested (lead ++ codes "  ") child (indent-IsBare lead l) h.1)
      ∙ pass lead _ (b'{' ∷ o) (λ o'. walk_bare lead o' l)
  nested lead (log_node_int name negative n) l h o =
      pass lead _ o (λ o'. walk_bare lead o' l)
      ∙ pass (quoted name) _ o (quoted-Still name h)
      ∙ signed-Still negative n o
  nested lead (log_node_string name val) l h o =
      pass lead _ o (λ o'. walk_bare lead o' l)
      ∙ pass (quoted name) _ o (quoted-Still name h.0)
      ∙ quoted-Still val h.1 o
  nested lead (log_node_rec name level sec usec child) l h o =
      pass lead _ o (λ o'. walk_bare lead o' l)
      ∙ pass (level_field lead level) _ (b'{' ∷ o) (level_field-Still lead level l)
      ∙ pass (time_field lead sec usec) _ (b'{' ∷ o) (time_field-Still lead sec usec l)
      ∙ pass (children (lead ++ codes "  ") child) _ (b'{' ∷ o)
          (all_nested (lead ++ codes "  ") child (indent-IsBare lead l) h)
      ∙ pass lead _ (b'{' ∷ o) (λ o'. walk_bare lead o' l)
  nested lead (log_list_node name level child) l h o =
      pass lead _ (b'{' ∷ o) (λ o'. walk_bare lead o' l)
      ∙ pass (quoted name) _ (b'{' ∷ o) (quoted-Still name h.0)
      ∙ pass (children (lead ++ codes "  ") child) _ (b'[' ∷ b'{' ∷ o)
          (all_nested (lead ++ codes "  ") child (indent-IsBare lead l) h.1)
      ∙ pass lead _ (b'[' ∷ b'{' ∷ o) (λ o'. walk_bare lead o' l)
  nested lead (min_node name level true child) l h o =
      pass lead _ (b'{' ∷ o) (λ o'. walk_bare lead o' l)
      ∙ pass (quoted name) _ (b'{' ∷ o) (quoted-Still name h.0)
      ∙ pass (children (lead ++ codes "  ") child) _ (b'{' ∷ b'{' ∷ o)
          (all_nested (lead ++ codes "  ") child (indent-IsBare lead l) h.1)
      ∙ pass lead _ (b'{' ∷ b'{' ∷ o) (λ o'. walk_bare lead o' l)
      ∙ pass lead _ (b'{' ∷ o) (λ o'. walk_bare lead o' l)
  nested lead (min_node name level false child) l h o =
      pass (children (lead ++ codes "  ") child) _ (b'{' ∷ o)
        (all_nested (lead ++ codes "  ") child (indent-IsBare lead l) h.1)
      ∙ pass lead _ (b'{' ∷ o) (λ o'. walk_bare lead o' l)

  all_nested : (lead : Text) (ns : Nodes) → IsBare lead → AreClean ns → Still (children lead ns)
  all_nested lead nil l h o = refl
  all_nested lead (cons n ns) l h o =
      pass (to_json lead n) _ o (nested lead n l h.0)
      ∙ pass (separator ns) _ o (separator-Still ns)
      ∙ all_nested lead ns l h.1 o

-- The JSON text of a node whose names and string values hold no quote and no backslash is well
-- nested: read from outside of strings, it ends there, with every bracket that it opens closed by
-- one of its kind, in order, and no other bracket closed. The margin holds no quote or bracket.
pub to_json_nested :
    (lead : Text) (n : Node) (opened : List ℕ)
    → IsBare lead
    → IsClean n
    → walk (to_json lead n) (outside opened) ≡ some (outside opened)
to_json_nested lead n opened l h = nested lead n l h opened
