-- ===== src/Util/Number/Correct.antt =====
-- What the number parsers of src/rvs_util.cpp and include/rvs_util.h accept, and what they store.
use mathlib.Core.List.{append-nil, append_assoc}
use rocm_validation_suite.Prelude.{
  ℕ, zero, suc, ◌+◌, ◌/◌, ◌%◌, ◌^◌, ◌≡◌, refl, ◌≢◌, ◌≤◌, ◌<◌, ◌↔◌, ◌⊎◌, inl, inr, Bool, ◌&&◌, true,
  false, none, some, List, [], ◌∷◌, ◌++◌, Text, length, length-append, is_nil, ltb, ◌==◌, arith,
  map, All, Bool-cases, ◌∙◌, ap, sym, ◌<◌,
}
use rocm_validation_suite.Util.Number.{
  all_digits, is_positive_integer, digits_value, ulong_mod, stoul, rvs_util_parse, push_number,
  collect, rvs_util_strarr_to_uintarr, print_digits, to_string,
}

-- The digits printed in front of `out` add their value in front of it.
print_digits_value :
    (f n : ℕ) (out : Text) → n < f → digits_value 0 (print_digits f n out) ≡ digits_value n out
unfolding print_digits digits_value
print_digits_value zero n out h = absurd (omega arith)
print_digits_value (suc f) n out h = elim (Bool-cases (n == 0)) [
  | inl z ↦ ground (arith, z)
  | inr pos ↦ rw pos (
      print_digits_value f (n / 10) ((b'0' + n % 10) ∷ out) (ground arith)
      ∙ ap (λ m. digits_value m out) (omega arith))
]

print_digits_digits :
    (f n : ℕ) (out : Text) → all_digits out ≡ true → all_digits (print_digits f n out) ≡ true
unfolding print_digits all_digits
print_digits_digits zero n out h = h
print_digits_digits (suc f) n out h =
    ground (arith, print_digits_digits f (n / 10) ((b'0' + n % 10) ∷ out))

print_digits-ne-nil : (f n x : ℕ) (out : Text) → is_nil (print_digits f n (x ∷ out)) ≡ false
unfolding print_digits
print_digits-ne-nil zero n x out = refl
print_digits-ne-nil (suc f) n x out =
    ground (arith, print_digits-ne-nil f (n / 10) (b'0' + n % 10) (x ∷ out))

to_string_value : (n : ℕ) → digits_value 0 (to_string n) ≡ n
unfolding to_string digits_value
to_string_value n = ground (arith, print_digits_value (suc n) n [])

to_string_positive : (n : ℕ) → is_positive_integer (to_string n) ≡ true
unfolding to_string is_positive_integer
to_string_positive zero = refl
to_string_positive (suc n) = ground (
  arith,
  print_digits_digits (suc (suc n)) (suc n) [] refl,
  print_digits-ne-nil (suc n) (suc n / 10) (b'0' + suc n % 10) [],
)

-- A decimal number below 2^64 is read back as it was printed, and is stored modulo 2^w, with
-- code 0.
pub rvs_util_parse-to_string :
    (w n old : ℕ) → n < ulong_mod → rvs_util_parse w (to_string n) old ≡ (0, n % 2 ^ w)
unfolding rvs_util_parse stoul
rvs_util_parse-to_string w n old h = ground (arith, to_string_value n, to_string_positive n)

-- A text that stands for a number that `unsigned long` holds.
pub record IsNumber (s : Text) : Type 0 where
  pub full : s ≢ []
  pub decimal : All (λ c. (b'0' ≤ c) × (c ≤ b'9')) s
  pub fits : digits_value 0 s < ulong_mod

all_digits_iff : (s : Text) → (all_digits s ≡ true) ↔ All (λ c. (b'0' ≤ c) × (c ≤ b'9')) s
unfolding all_digits
all_digits_iff [] = (λ h. tt, λ h. refl)
all_digits_iff (c ∷ s) = (
  λ h. ((ground arith, ground arith), (all_digits_iff s).0 (ground arith)),
  λ h. ground (arith, (all_digits_iff s).1 h.1),
)

pub to_string-digits : (n : ℕ) → All (λ c. (b'0' ≤ c) × (c ≤ b'9')) (to_string n)
unfolding is_positive_integer
to_string-digits n = (all_digits_iff (to_string n)).0 (ground (arith, to_string_positive n))

number_test : Text → Bool
number_test s = is_positive_integer s && ltb (digits_value 0 s) ulong_mod

number_test_complete : (s : Text) → IsNumber s → number_test s ≡ true
unfolding number_test is_positive_integer
number_test_complete [] h = absurd (h.full refl)
number_test_complete (c ∷ s) h = ground (arith, (all_digits_iff (c ∷ s)).1 h.decimal, h.fits)

number_test_iff : (s : Text) → (number_test s ≡ true) ↔ IsNumber s
unfolding number_test is_positive_integer
number_test_iff s = (
  λ h. record {
    full = λ e. ground (arith, ap is_nil e);
    decimal = (all_digits_iff s).0 (ground arith);
    fits = ground arith;
  },
  number_test_complete s,
)

-- The three outcomes of `rvs_util_parse`: the number modulo 2^w with code 0, if the text stands
-- for a number below 2^64; code 2 for the empty text; code 1 for any other. `*pval` is written in
-- the first case only.
pub rvs_util_parse_outcome :
    (w old : ℕ) (s : Text)
    → (IsNumber s × (rvs_util_parse w s old ≡ (0, digits_value 0 s % 2 ^ w)))
      ⊎ (((s ≡ []) × (rvs_util_parse w s old ≡ (2, old)))
          ⊎ ((s ≢ []) × ¬ (IsNumber s) × (rvs_util_parse w s old ≡ (1, old))))
unfolding rvs_util_parse stoul number_test
rvs_util_parse_outcome w old [] = inr (inl (refl, refl))
rvs_util_parse_outcome w old (c ∷ s) = elim (Bool-cases (number_test (c ∷ s))) [
  | inl good ↦ inl ((number_test_iff (c ∷ s)).0 good, ground arith)
  | inr bad ↦
      inr (inr ((λ e. cc), (λ h. ground (arith, number_test_complete (c ∷ s) h)), ground arith))
]

-- The values that an array of texts stands for, each modulo 2^w.
abbrev pub values : ℕ → List Text → List ℕ
values w = map (λ s. digits_value 0 s % 2 ^ w)

push_good :
    (w : ℕ) (s : Text) (arr : List ℕ)
    → number_test s ≡ true
    → push_number w s arr ≡ arr ++ (digits_value 0 s % 2 ^ w) ∷ []
unfolding push_number stoul number_test
push_good w s arr h = ground arith

push_bad : (w : ℕ) (s : Text) (arr : List ℕ) → number_test s ≡ false → push_number w s arr ≡ arr
unfolding push_number stoul number_test
push_bad w s arr h = ground arith

length-values : (w : ℕ) (ss : List Text) → length (values w ss) ≡ length ss
length-values w [] = refl
length-values w (s ∷ ss) = ap suc (length-values w ss)

length-push : (w : ℕ) (s : Text) (arr : List ℕ) → length (push_number w s arr) ≤ length arr + 1
length-push w s arr = elim (Bool-cases (number_test s)) [
  | inl good ↦
      rw (push_good w s arr good)
        (omega (arith, length-append arr ((digits_value 0 s % 2 ^ w) ∷ [])))
  | inr bad ↦ rw (push_bad w s arr bad) (omega arith)
]

length-collect :
    (w : ℕ) (ss : List Text) (arr : List ℕ) → length (collect w ss arr) ≤ length arr + length ss
unfolding collect
length-collect w [] arr = omega arith
length-collect w (s ∷ ss) arr =
    omega (arith, length-push w s arr, length-collect w ss (push_number w s arr))

collect_good :
    (w : ℕ) (ss : List Text) (arr : List ℕ)
    → All IsNumber ss
    → collect w ss arr ≡ arr ++ values w ss
unfolding collect
collect_good w [] arr h = sym (append-nil arr)
collect_good w (s ∷ ss) arr h =
    collect_good w ss (push_number w s arr) h.1
    ∙ rw (push_good w s arr (number_test_complete s h.0)) (append_assoc arr _ _)

collect_full :
    (w : ℕ) (ss : List Text) (arr : List ℕ)
    → length (collect w ss arr) ≡ length arr + length ss
    → All IsNumber ss
unfolding collect
collect_full w [] arr h = tt
collect_full w (s ∷ ss) arr h = elim (Bool-cases (number_test s)) [
  | inl good ↦ (
    (number_test_iff s).0 good,
    collect_full w ss (push_number w s arr)
        (omega (arith, length-push w s arr, length-collect w ss (push_number w s arr))),
  )
  | inr bad ↦
      absurd
        (omega (arith, ap length (push_bad w s arr bad), length-collect w ss (push_number w s arr)))
]

-- `rvs_util_strarr_to_uintarr` returns the number of texts, with their values modulo 2^w in order,
-- if every text stands for a number below 2^64, and -1 if one does not.
pub strarr_outcome :
    (w : ℕ) (ss : List Text)
    → (All IsNumber ss × (rvs_util_strarr_to_uintarr w ss ≡ (some (length ss), values w ss)))
      ⊎ (¬ (All IsNumber ss) × ((rvs_util_strarr_to_uintarr w ss).0 ≡ none))
unfolding rvs_util_strarr_to_uintarr
strarr_outcome w ss = elim (Bool-cases (length ss == length (collect w ss []))) [
  | inl same ↦
      let good : All IsNumber ss = collect_full w ss [] (ground arith) in
      inl (good, rw same (rw (collect_good w ss [] good, length-values w ss)))
  | inr other ↦ inr (
    (λ good. ground (arith, ap length (collect_good w ss [] good), length-values w ss)),
    rw other,
  )
]
