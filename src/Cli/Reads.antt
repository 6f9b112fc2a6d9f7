-- ===== src/Cli/Reads.antt =====
-- What command lines mean, with no stack and no buffers: the options that a list of arguments
-- stores, for rvs/src/rvscli.cpp.
use rocm_validation_suite.Prelude.{
  ◌≡◌, refl, ◌≢◌, ◌⊎◌, inl, inr, ap, none, some, List, [], ◌∷◌, Text, Map, find, put, arith, All,
  Bool, true, false, not, ◌&&◌, is_nil, Bool-cases, str_eq,
}
use mathlib.Core.Path.{subst}
use rocm_validation_suite.Cli.Grammar.{
  EContext, eof, value, optionalvalue, command, OptBase, grammar,
}

abbrev pub IsFlag : OptBase → Type 0
IsFlag o = o.new_context ≡ (command ∷ eof ∷ [])

abbrev pub IsValued : OptBase → Type 0
IsValued o = o.new_context ≡ (value ∷ command ∷ eof ∷ [])

abbrev pub IsOptional : OptBase → Type 0
IsOptional o = o.new_context ≡ (optionalvalue ∷ command ∷ eof ∷ [])

-- The arguments end, or the next one is an option.
abbrev pub EndOrOption : List Text → Type 0
EndOrOption [] = Unit
EndOrOption (t ∷ ts) = (o : OptBase) × (find t grammar ≡ some o)

-- `Reads ts m m'`: the arguments `ts` are well formed, and take the options `m` to `m'`.
pub data Reads : List Text → Map Text → Map Text → Type 0 where
  stop : {m : Map Text} → Reads [] m m
  stop_at_empty : {ts : List Text} {m : Map Text} → Reads ([] ∷ ts) m m
  flag :
      {t : Text} {ts : List Text} {m m' : Map Text} (o : OptBase)
      → find t grammar ≡ some o
      → IsFlag o
      → Reads ts (put o.name [] m) m'
      → Reads (t ∷ ts) m m'
  valued :
      {t v : Text} {ts : List Text} {m m' : Map Text} (o : OptBase)
      → find t grammar ≡ some o
      → IsValued o
      → v ≢ []
      → find v grammar ≡ none
      → Reads ts (put o.name v m) m'
      → Reads (t ∷ v ∷ ts) m m'
  given :
      {t v : Text} {ts : List Text} {m m' : Map Text} (o : OptBase)
      → find t grammar ≡ some o
      → IsOptional o
      → v ≢ []
      → find v grammar ≡ none
      → Reads ts (put o.name v m) m'
      → Reads (t ∷ v ∷ ts) m m'
  omitted :
      {t : Text} {ts : List Text} {m m' : Map Text} (o : OptBase)
      → find t grammar ≡ some o
      → IsOptional o
      → EndOrOption ts
      → Reads ts (put o.name [] m) m'
      → Reads (t ∷ ts) m m'
  given_empty :
      {t : Text} {ts : List Text} {m m' : Map Text} (o : OptBase)
      → find t grammar ≡ some o
      → IsOptional o
      → Reads ts (put o.name [] m) m'
      → Reads (t ∷ [] ∷ ts) m m'

-- Every entry has a name and one of the three stacks.
pub record IsEntry (o : OptBase) : Type 0 where
  pub named : o.name ≢ []
  pub shape : IsFlag o ⊎ (IsValued o ⊎ IsOptional o)

find-All :
    (P : OptBase → Type 0) (t : Text) (g : Map OptBase) {o : OptBase}
    → All (λ e. P e.1) g
    → find t g ≡ some o
    → P o
unfolding find
find-All P t [] h e = cc
find-All P t ((k, p) ∷ g) h e = elim (Bool-cases (str_eq k t)) [
  | inl same ↦ subst P (ground arith) h.0
  | inr other ↦ find-All P t g h.1 (ground arith)
]

has_shape : List EContext → Bool
has_shape (command ∷ eof ∷ []) = true
has_shape (value ∷ command ∷ eof ∷ []) = true
has_shape (optionalvalue ∷ command ∷ eof ∷ []) = true
has_shape _ = false

has_shape_sound :
    (o : OptBase) (c : List EContext)
    → o.new_context ≡ c
    → has_shape c ≡ true
    → IsFlag o ⊎ (IsValued o ⊎ IsOptional o)
unfolding has_shape
has_shape_sound o (command ∷ eof ∷ []) e h = inl e
has_shape_sound o (value ∷ command ∷ eof ∷ []) e h = inr (inl e)
has_shape_sound o (optionalvalue ∷ command ∷ eof ∷ []) e h = inr (inr e)
has_shape_sound o _ e h = cc

all_entries : Map OptBase → Bool
unfolding has_shape
all_entries [] = true
all_entries ((t, o) ∷ g) = (not (is_nil o.name) && has_shape o.new_context) && all_entries g

all_entries_sound : (g : Map OptBase) → all_entries g ≡ true → All (λ e. IsEntry e.1) g
unfolding all_entries
all_entries_sound [] h = tt
all_entries_sound ((t, o) ∷ g) h = (
  record {
    named = λ e. ground (arith, ap is_nil e);
    shape = has_shape_sound o o.new_context refl (ground arith);
  },
  all_entries_sound g (ground arith),
)

entries : all_entries grammar ≡ true
unfolding grammar all_entries str_eq
entries = refl

pub grammar-IsEntry : (t : Text) {o : OptBase} → find t grammar ≡ some o → IsEntry o
grammar-IsEntry t e = find-All IsEntry t grammar (all_entries_sound grammar entries) e

pub empty_unknown : find [] grammar ≡ none
unfolding grammar find str_eq
empty_unknown = refl
