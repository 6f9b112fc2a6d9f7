-- ===== src/Exec/Selection.antt =====
-- The option -s of `do_yaml` of rvs/src/rvsexec_do_yaml.cpp: which actions of the file are run.
use rocm_validation_suite.Prelude.{
  ℕ, Bool, false, ◌&&◌, ◌||◌, Option, none, some, List, [], ◌∷◌, ◌++◌, Text, str_eq, is_nil, leb,
  length, ◌==◌, if◌then◌else◌,
}
use rocm_validation_suite.Exec.Run.{ℤ, pos, negsuc}
use rocm_validation_suite.Exec.Properties.{commas_to_spaces}

-- `iss >> token`, for the bytes that are white space.
is_space : ℕ → Bool
is_space c = c == 32 || (leb 9 c && leb c 13)

abbrev flush : Text → List Text → List Text
flush [] words = words
flush (c ∷ word) words = (c ∷ word) ∷ words

unfoldable pub words_from : Text → Text → List Text
unfolding is_space
words_from word [] = flush word []
words_from word (c ∷ s) =
    let inside = words_from (word ++ c ∷ []) s in
    let between = words_from [] s in if is_space c then flush word between else inside

pub record Selection : Type 0 where
  pub names : List Text
  pub indices : List ℕ

unfoldable pub index_of : Text → Option (ℤ × ℕ) → Option ℕ
index_of token none = none
index_of token (some (pos n, read)) = if read == length token then some n else none
index_of token (some (negsuc n, read)) = none

-- The indices, if all tokens are numbers.
unfoldable pub all_indices : (Text → Option (ℤ × ℕ)) → List Text → Option (List ℕ)
unfolding index_of
all_indices stoi [] = some []
all_indices stoi (t ∷ tokens) = elim (index_of t (stoi t)) [
  | none ↦ none
  | some n ↦ elim (all_indices stoi tokens) [ none ↦ none | some ns ↦ some (n ∷ ns) ]
]

-- The option -s.
unfoldable pub selection : (Text → Option (ℤ × ℕ)) → Option Text → Selection
unfolding all_indices words_from commas_to_spaces
selection stoi none = record { names = []; indices = [] }
selection stoi (some select_val) =
    let tokens = words_from [] (commas_to_spaces select_val) in
    elim (all_indices stoi tokens) [
      | none ↦ record { names = tokens; indices = [] }
      | some ns ↦ record { names = []; indices = ns }
    ]

unfoldable pub has_name : Text → List Text → Bool
has_name name [] = false
has_name name (t ∷ names) = str_eq t name || has_name name names

unfoldable pub has_index : ℕ → List ℕ → Bool
has_index i [] = false
has_index i (n ∷ ns) = n == i || has_index i ns

-- Whether an action is run: all are if nothing is selected.
unfoldable pub is_selected : Selection → Text → ℕ → Bool
unfolding has_name has_index
is_selected sel name i =
    (is_nil sel.names && is_nil sel.indices) || (has_name name sel.names || has_index i sel.indices)
