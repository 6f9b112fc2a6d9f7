-- ===== src/Util/Number.antt =====
-- Numbers and flags in texts, src/rvs_util.cpp and include/rvs_util.h: `is_positive_integer`,
-- `rvs_util_parse` and `rvs_util_strarr_to_uintarr`, with `std::stoul` and `std::to_string`.
-- `unsigned long` has 64 bits; `w` is the width of the template's integer type.
pub mod Correct
use rocm_validation_suite.Prelude.{
  ℕ, zero, suc, ◌+◌, ◌-◌, ◌*◌, ◌/◌, ◌%◌, ◌^◌, Bool, true, false, not, ◌&&◌, Option, none, some,
  List, [], ◌∷◌, ◌++◌, Text, codes, length, is_nil, ltb, leb, ◌==◌, if◌then◌else◌, str_eq,
}

unfoldable pub is_digit : ℕ → Bool
is_digit c = leb b'0' c && leb c b'9'

-- `find_if` of a character that is no digit reaches the end.
unfoldable pub all_digits : Text → Bool
unfolding is_digit
all_digits [] = true
all_digits (c ∷ s) = is_digit c && all_digits s

unfoldable pub is_positive_integer : Text → Bool
unfolding all_digits
is_positive_integer str_val = not (is_nil str_val) && all_digits str_val

unfoldable pub digits_value : ℕ → Text → ℕ
digits_value acc [] = acc
digits_value acc (c ∷ s) = digits_value (acc * 10 + (c - b'0')) s

abbrev pub ulong_mod : ℕ
ulong_mod = 2 ^ 64

-- `std::stoul` of a text of digits; `none` is `std::out_of_range`.
unfoldable pub stoul : Text → Option ℕ
unfolding digits_value
stoul s = let n = digits_value 0 s in if ltb n ulong_mod then some n else none

-- The error code with the value of `*pval`.
store : ℕ → ℕ → Option ℕ → ℕ × ℕ
store w old none = (1, old)
store w old (some n) = (0, n % 2 ^ w)

unfoldable pub rvs_util_parse : ℕ → Text → ℕ → ℕ × ℕ
unfolding store is_positive_integer
rvs_util_parse w buff old =
    if is_nil buff
    then (2, old)
    else if is_positive_integer buff
    then store w old (stoul buff)
    else (1, old)

-- The overload for `bool`.
unfoldable pub rvs_util_parse_bool : Text → Bool → ℕ × Bool
rvs_util_parse_bool buff old =
    if is_nil buff
    then (2, old)
    else if str_eq buff (codes "true")
    then (0, true)
    else if str_eq buff (codes "false")
    then (0, false)
    else (1, old)

push_value : ℕ → Option ℕ → List ℕ → List ℕ
push_value w none arr = arr
push_value w (some n) arr = arr ++ (n % 2 ^ w) ∷ []

-- One round: a text that is no number, or out of range, is passed over.
push_number : ℕ → Text → List ℕ → List ℕ
unfolding push_value is_positive_integer
push_number w it arr = if is_positive_integer it then push_value w (stoul it) arr else arr

collect : ℕ → List Text → List ℕ → List ℕ
unfolding push_number
collect w [] arr = arr
collect w (it ∷ s) arr = collect w s (push_number w it arr)

-- The result, `none` for -1, with the array.
unfoldable pub rvs_util_strarr_to_uintarr : ℕ → List Text → Option ℕ × List ℕ
unfolding collect
rvs_util_strarr_to_uintarr w s_arr =
    let arr = collect w s_arr [] in
    if length s_arr == length arr then (some (length arr), arr) else (none, arr)

-- `std::to_string` of a number that is not negative; the fuel is more than the digits.
print_digits : ℕ → ℕ → Text → Text
print_digits zero n out = out
print_digits (suc fuel) n out =
    let more = print_digits fuel (n / 10) ((b'0' + n % 10) ∷ out) in if n == 0 then out else more

unfoldable pub to_string : ℕ → Text
unfolding print_digits
to_string n = if n == 0 then b'0' ∷ [] else print_digits (suc n) n []
