-- ===== src/Util/Split/RoundTrip.antt =====
-- `str_split` of src/rvs_util.cpp undoes a join.
use rocm_validation_suite.Prelude.{
  ℕ, ◌≡◌, ◌≢◌, refl, ap, ◌∙◌, some, List, [], ◌∷◌, ◌++◌, Text, All, keep, arith,
}
use rocm_validation_suite.Util.Split.{str_split}
use rocm_validation_suite.Util.Split.Correct.{fields, is_full, str_split-fields}

-- The tokens with one `c` after each.
abbrev pub join : ℕ → List Text → Text
join c [] = []
join c (t ∷ ts) = t ++ c ∷ join c ts

-- A token that is not empty and holds no `c`.
pub record IsToken (c : ℕ) (t : Text) : Type 0 where
  pub full : t ≢ []
  pub apart : All (λ x. x ≢ c) t

fields-append : (c : ℕ) (t s : Text) → All (λ x. x ≢ c) t → fields c (t ++ c ∷ s) ≡ (t ∷ fields c s)
unfolding fields
fields-append c [] s h = ground arith
fields-append c (x ∷ t) s h = ground (arith, h.0, fields-append c t s h.1)

keep-join : (c : ℕ) (ts : List Text) → All (IsToken c) ts → keep is_full (fields c (join c ts)) ≡ ts
unfolding fields
keep-join c [] h = refl
keep-join c ([] ∷ ts) h = absurd (h.0.full refl)
keep-join c ((x ∷ t) ∷ ts) h =
    rw (fields-append c (x ∷ t) (join c ts) h.0.apart) (ap (λ r. (x ∷ t) ∷ r) (keep-join c ts h.1))

-- Tokens that are not empty and do not hold the delimiter, each followed by it, are split into
-- those tokens.
pub str_split-join :
    (c : ℕ) (ts : List Text) → All (IsToken c) ts → str_split (join c ts) (c ∷ []) ≡ some ts
str_split-join c ts h = str_split-fields (join c ts) c ∙ ap some (keep-join c ts h)
