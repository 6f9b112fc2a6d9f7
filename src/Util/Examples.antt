-- ===== src/Util/Examples.antt =====
-- Texts that are split and read.
use rocm_validation_suite.Prelude.{
  ◌%◌, ◌^◌, ◌≡◌, refl, some, List, [], ◌∷◌, Text, codes, arith, keep, true, false, str_eq,
}
use rocm_validation_suite.Util.Split.{str_split}
use rocm_validation_suite.Util.Split.Correct.{fields, is_full, str_split-fields}
use rocm_validation_suite.Util.Number.{rvs_util_parse, to_string, rvs_util_parse_bool, stoul}
use rocm_validation_suite.Util.Number.Correct.{rvs_util_parse-to_string}

str_split_runs :
    str_split (codes "10  20 all") (codes " ") ≡ some (codes "10" ∷ codes "20" ∷ codes "all" ∷ [])
unfolding str_split
str_split_runs = refl

long_delimiter : str_split (codes "a, b,c, ") (codes ", ") ≡ some (codes "a" ∷ codes "b,c" ∷ [])
unfolding str_split
long_delimiter = refl

str_split-fields_example :
    str_split (codes "1 2") (codes " ") ≡ some (keep is_full (fields b' ' (codes "1 2")))
str_split-fields_example = str_split-fields (codes "1 2") b' '

rvs_util_parse-to_string_example : rvs_util_parse 16 (to_string 65537) 9 ≡ (0, 65537 % 2 ^ 16)
rvs_util_parse-to_string_example = rvs_util_parse-to_string 16 65537 9 (omega arith)

-- A `uint16_t` keeps the low 16 bits of what is read.
wraps : rvs_util_parse 16 (codes "65537") 9 ≡ (0, 1)
unfolding rvs_util_parse stoul
wraps = refl

out_of_range : rvs_util_parse 64 (codes "18446744073709551616") 9 ≡ (1, 9)
unfolding rvs_util_parse stoul
out_of_range = refl

flag_runs : rvs_util_parse_bool (codes "false") true ≡ (0, false)
unfolding rvs_util_parse_bool str_eq
flag_runs = refl

abbrev listed : List Text
listed = codes "3" ∷ codes "x" ∷ []
