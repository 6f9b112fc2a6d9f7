-- ===== src/Gm/Bounds.antt =====
-- Which bounds `get_bounds` of gm.so/src/action.cpp accepts.
use mathlib.Core.Path.{subst}
use rocm_validation_suite.Prelude.{
  ℕ, ◌≡◌, refl, sym, ap, ◌⊎◌, ◌↔◌, inl, inr, false, none, some, List, [], ◌∷◌, ◌++◌, Text, codes,
  Map, find, keep, ◌==◌, arith, Option-cases,
}
use rocm_validation_suite.Util.Split.Correct.{fields, is_full}
use rocm_validation_suite.Util.Number.{rvs_util_parse}
use rocm_validation_suite.Util.Number.Correct.{IsNumber, rvs_util_parse_outcome}
use rocm_validation_suite.Action.{Action, tokens}
use rocm_validation_suite.Action.Getters.{tokens_lem}
use rocm_validation_suite.Gm.Worker.{Bound}
use rocm_validation_suite.Gm.Config.{parse_bound, get_bounds}

-- A list of a word and two numbers.
abbrev pub IsBounds : List Text → Type 0
IsBounds ts =
    (flag : Text) × (high : Text) × (low : Text) × (ts ≡ flag ∷ high ∷ low ∷ [])
    × IsNumber high
    × IsNumber low

-- The key is missing, or has a word and two numbers between blanks.
abbrev pub IsBoundsKey : Text → Map Text → Type 0
IsBoundsKey metric m =
    (find (codes "metrics." ++ metric) m ≡ none)
    ⊎ ((v : Text) × (find (codes "metrics." ++ metric) m ≡ some v)
        × IsBounds (keep is_full (fields b' ' v)))

IsNumber-code : (w old : ℕ) (s : Text) → ((rvs_util_parse w s old).0 ≡ 0) ↔ IsNumber s
IsNumber-code w old s = elim (rvs_util_parse_outcome w old s) [
  | inl (good, got) ↦ (λ h. good, λ k. ap (λ x. x.0) got)
  | inr (inl (empty, got)) ↦ (λ h. absurd (ground (arith, got)), λ k. absurd (k.full empty))
  | inr (inr (full, bad, got)) ↦ (λ h. absurd (ground (arith, got)), λ k. absurd (bad k))
]

-- The texts of a list of three.
three_back : (x y z : Text) → IsBounds (x ∷ y ∷ z ∷ []) → IsNumber y × IsNumber z
three_back x y z (flag, high, low, e, h, l) =
    let e1 : y ≡ high = cc in
    let e2 : z ≡ low = cc in (subst IsNumber (sym e1) h, subst IsNumber (sym e2) l)

parse_fine : (ts : List Text) (old : Bound) → (((parse_bound ts old).0 == 1) ≡ false) ↔ IsBounds ts
unfolding parse_bound
parse_fine [] old = (λ h. absurd cc, λ k. absurd (let e = k.3 in cc))
parse_fine (x ∷ []) old = (λ h. absurd cc, λ k. absurd (let e = k.3 in cc))
parse_fine (x ∷ y ∷ []) old = (λ h. absurd cc, λ k. absurd (let e = k.3 in cc))
parse_fine (x ∷ y ∷ z ∷ []) old = (
  λ h. (
    x,
    y,
    z,
    refl,
    (IsNumber-code 32 0 y).0 (ground arith),
    (IsNumber-code 32 0 z).0 (ground arith),
  ),
  λ k.
      let (high, low) = three_back x y z k in
      ground (arith, (IsNumber-code 32 0 y).1 high, (IsNumber-code 32 0 z).1 low),
)
parse_fine (x ∷ y ∷ z ∷ u ∷ ts) old = (λ h. absurd cc, λ k. absurd (let e = k.3 in cc))

IsBounds-back :
    (metric : Text) (m : Map Text) (v : Text)
    → find (codes "metrics." ++ metric) m ≡ some v
    → IsBoundsKey metric m
    → IsBounds (keep is_full (fields b' ' v))
IsBounds-back metric m v there (inl missing) = absurd (ground (arith, there, missing))
IsBounds-back metric m v there (inr (u, at, good)) =
    subst (λ x. IsBounds (keep is_full (fields b' ' x))) (ground (arith, there, at)) good

-- The code is not 1 where the key is as it should be.
pub bounds_fine :
    (metric : Text) (a : Action) (old : Bound)
    → (((get_bounds metric a old).0 == 1) ≡ false) ↔ IsBoundsKey metric a.property
unfolding get_bounds
bounds_fine metric a old = elim (Option-cases (find (codes "metrics." ++ metric) a.property)) [
  | inl missing ↦ (λ h. inl missing, λ k. ground (arith, missing))
  | inr (v, there) ↦
      let code = parse_fine (tokens v (codes " ")) old in
      (
        λ h. inr (v, there, subst IsBounds (tokens_lem v) (code.0 (ground (arith, there, h)))),
        λ k. ground (
          arith,
          there,
          code.1 (subst IsBounds (sym (tokens_lem v)) (IsBounds-back metric a.property v there k)),
        ),
      )
]
