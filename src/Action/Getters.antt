-- ===== src/Action/Getters.antt =====
-- Which values the getters of include/rvsactionbase.h accept.
use mathlib.Core.Path.{subst}
use rocm_validation_suite.Prelude.{
  ℕ, ◌≡◌, refl, ◌⊎◌, ◌↔◌, inl, inr, Bool, true, none, some, List, [], ◌∷◌, Text, codes, Map, find,
  All, keep, str_eq, str_eq_iff, arith, Bool-cases, Option-cases, is_nil, ap,
}
use rocm_validation_suite.Util.Split.Correct.{fields, is_full, str_split-fields}
use rocm_validation_suite.Util.Number.{rvs_util_parse_bool}
use rocm_validation_suite.Util.Number.Correct.{IsNumber, rvs_util_parse_outcome, strarr_outcome}
use rocm_validation_suite.Action.Property.{
  Action, property_get_uint_list, property_get_int_or, property_get_bool_or, tokens,
}

-- The key is there, and is "all" or a list of numbers between blanks.
abbrev pub IsListKey : Text → Map Text → Type 0
IsListKey key m =
    (v : Text) × (find key m ≡ some v)
    × ((v ≡ codes "all") ⊎ All IsNumber (keep is_full (fields b' ' v)))

-- The key is missing or stands for a number.
abbrev pub IsIntKey : Text → Map Text → Type 0
IsIntKey key m = (find key m ≡ none) ⊎ ((v : Text) × (find key m ≡ some v) × IsNumber v)

-- The key is missing, empty, or one of the two words.
abbrev pub IsBoolKey : Text → Map Text → Type 0
IsBoolKey key m =
    (find key m ≡ none)
    ⊎ ((v : Text) × (find key m ≡ some v) × ((v ≡ []) ⊎ ((v ≡ codes "true") ⊎ (v ≡ codes "false"))))

int_back :
    (key : Text) (m : Map Text) (v : Text) → find key m ≡ some v → IsIntKey key m → IsNumber v
int_back key m v there (inl missing) = absurd (ground (arith, there, missing))
int_back key m v there (inr (u, at, good)) = subst IsNumber (ground (arith, there, at)) good

pub int_code :
    (w : ℕ) (key : Text) (old default : ℕ) (a : Action)
    → ((property_get_int_or w key old default a).0 ≡ 0) ↔ IsIntKey key a.property
unfolding property_get_int_or
int_code w key old default a = elim (Option-cases (find key a.property)) [
  | inl missing ↦ ((λ h. inl missing), (λ k. ground (arith, missing)))
  | inr (v, there) ↦ elim (rvs_util_parse_outcome w old v) [
    | inl (good, got) ↦ ((λ h. inr (v, there, good)), (λ k. ground (arith, there, got)))
    | inr (inl (empty, got)) ↦ (
      (λ h. absurd (ground (arith, there, got))),
      (λ k. absurd ((int_back key a.property v there k).full empty)),
    )
    | inr (inr (full, bad, got)) ↦ (
      (λ h. absurd (ground (arith, there, got))),
      (λ k. absurd (bad (int_back key a.property v there k))),
    )
  ]
]

list_back :
    (key : Text) (m : Map Text) (v : Text)
    → find key m ≡ some v
    → IsListKey key m
    → (v ≡ codes "all") ⊎ All IsNumber (keep is_full (fields b' ' v))
list_back key m v there (u, at, good) =
    subst (λ x. (x ≡ codes "all") ⊎ All IsNumber (keep is_full (fields b' ' x)))
      (ground (arith, there, at)) good

pub tokens_lem : (v : Text) → tokens v (codes " ") ≡ keep is_full (fields b' ' v)
unfolding tokens
tokens_lem v = ground (arith, str_split-fields v b' ')

pub list_code :
    (key : Text) (pval : List ℕ) (pball : Bool) (a : Action)
    → ((property_get_uint_list 16 key (codes " ") pval pball a).0 ≡ 0) ↔ IsListKey key a.property
unfolding property_get_uint_list
list_code key pval pball a = elim (Option-cases (find key a.property)) [
  | inl missing ↦
      ((λ h. absurd (ground (arith, missing))), (λ k. absurd (ground (arith, missing, k.1))))
  | inr (v, there) ↦ elim (Bool-cases (str_eq v (codes "all"))) [
    | inl all ↦ (
      (λ h. (v, there, inl ((str_eq_iff v (codes "all")).0 all))),
      (λ k. ground (arith, there, all)),
    )
    | inr other ↦ elim (strarr_outcome 16 (tokens v (codes " "))) [
      | inl (good, got) ↦
          ((λ h. (v, there, inr (rw tokens_lem at good))), (λ k. ground (arith, there, other, got)))
      | inr (bad, got) ↦ (
        (λ h. absurd (ground (arith, there, other, got))),
        (λ k. elim (list_back key a.property v there k) [
          | inl all ↦ absurd (ground (arith, other, (str_eq_iff v (codes "all")).1 all))
          | inr good ↦ absurd (bad (rw tokens_lem good))
        ]),
      )
    ]
  ]
]

nil_of : (v : Text) → is_nil v ≡ true → v ≡ []
nil_of [] h = refl
nil_of (x ∷ v) h = cc

bool_back :
    (key : Text) (m : Map Text) (v : Text)
    → find key m ≡ some v
    → IsBoolKey key m
    → (v ≡ []) ⊎ ((v ≡ codes "true") ⊎ (v ≡ codes "false"))
bool_back key m v there (inl missing) = absurd (ground (arith, there, missing))
bool_back key m v there (inr (u, at, good)) =
    subst (λ x. (x ≡ []) ⊎ ((x ≡ codes "true") ⊎ (x ≡ codes "false"))) (ground (arith, there, at))
      good

pub bool_code :
    (key : Text) (old default : Bool) (a : Action)
    → ((property_get_bool_or key old default a).0 ≡ 0) ↔ IsBoolKey key a.property
unfolding property_get_bool_or rvs_util_parse_bool
bool_code key old default a = elim (Option-cases (find key a.property)) [
  | inl missing ↦ ((λ h. inl missing), (λ k. ground (arith, missing)))
  | inr (v, there) ↦ elim (Bool-cases (is_nil v)) [
    | inl empty ↦ ((λ h. inr (v, there, inl (nil_of v empty))), (λ k. ground (arith, there, empty)))
    | inr full ↦ elim (Bool-cases (str_eq v (codes "true"))) [
      | inl t ↦ (
        (λ h. inr (v, there, inr (inl ((str_eq_iff v (codes "true")).0 t)))),
        (λ k. ground (arith, there, full, t)),
      )
      | inr not_true ↦ elim (Bool-cases (str_eq v (codes "false"))) [
        | inl f ↦ (
          (λ h. inr (v, there, inr (inr ((str_eq_iff v (codes "false")).0 f)))),
          (λ k. ground (arith, there, full, not_true, f)),
        )
        | inr not_false ↦ (
          (λ h. absurd (ground (arith, there, full, not_true, not_false))),
          (λ k. elim (bool_back key a.property v there k) [
            | inl empty ↦ absurd (ground (arith, full, ap is_nil empty))
            | inr (inl t) ↦ absurd (ground (arith, not_true, (str_eq_iff v (codes "true")).1 t))
            | inr (inr f) ↦ absurd (ground (arith, not_false, (str_eq_iff v (codes "false")).1 f))
          ]),
        )
      ]
    ]
  ]
]
