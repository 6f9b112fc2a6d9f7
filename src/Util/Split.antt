-- ===== src/Util/Split.antt =====
-- `str_split` of src/rvs_util.cpp, and the fields of a text between separators.
-- Positions are `int` in the source; texts are shorter than 2^31 bytes here.
pub mod Correct
pub mod RoundTrip
use rocm_validation_suite.Prelude.{
  ℕ, zero, suc, ◌+◌, ◌-◌, Bool, true, false, ◌&&◌, Option, none, some, List, [], ◌∷◌, ◌++◌, Text,
  length, take, drop, is_nil, ltb, ◌==◌, if◌then◌else◌,
}

is_prefix : Text → Text → Bool
is_prefix [] s = true
is_prefix (x ∷ d) [] = false
is_prefix (x ∷ d) (y ∷ s) = (x == y) && is_prefix d s

-- `std::string::find`: `s` is the text from position `i` on.
unfoldable pub find_from : Text → ℕ → Text → Option ℕ
unfolding is_prefix
find_from d i [] = if is_prefix d [] then some i else none
find_from d i (x ∷ s) =
    let later = find_from d (suc i) s in if is_prefix d (x ∷ s) then some i else later

push_unless_empty : Text → List Text → List Text
push_unless_empty [] tokens = tokens
push_unless_empty (x ∷ token) tokens = tokens ++ (x ∷ token) ∷ []

or_end : Option ℕ → ℕ → ℕ
or_end none end = end
or_end (some i) end = i

-- The body of `do … while`; `none` means that the fuel ran out.
split_loop : ℕ → Text → Text → ℕ → List Text → Option (List Text)
unfolding find_from push_unless_empty or_end
split_loop zero s d prev_pos tokens = none
split_loop (suc fuel) s d prev_pos tokens =
    let cur_pos = or_end (find_from d prev_pos (drop prev_pos s)) (length s) in
    let tokens' = push_unless_empty (take (cur_pos - prev_pos) (drop prev_pos s)) tokens in
    let prev' = cur_pos + length d in
    let rest = split_loop fuel s d prev' tokens' in
    if ltb cur_pos (length s) && ltb prev' (length s) then rest else some tokens'

-- Each round but the last passes at least one byte.
unfoldable pub str_split : Text → Text → Option (List Text)
unfolding split_loop
str_split str_val delimiter = split_loop (suc (length str_val)) str_val delimiter 0 []
