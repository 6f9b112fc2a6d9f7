-- ===== src/Util/Split/Correct.antt =====
-- `str_split` of src/rvs_util.cpp against the fields of a text, for a delimiter of one byte.
use mathlib.Core.List.{append_assoc, append-nil}
use rocm_validation_suite.Prelude.{
  ℕ, zero, suc, ◌+◌, ◌-◌, ◌≡◌, refl, ◌≤◌, ◌<◌, Bool, not, none, some, List, [], ◌∷◌, ◌++◌, Text,
  length, take, drop, is_nil, keep, ltb, ◌==◌, if◌then◌else◌, arith, inl, inr, Bool-cases,
  length-drop, take_all, drop_all, drop-drop, sym, ap, ◌∙◌,
}
use rocm_validation_suite.Util.Split.{find_from, push_unless_empty, split_loop, str_split}

abbrev pub cons_head : ℕ → List Text → List Text
cons_head x [] = (x ∷ []) ∷ []
cons_head x (f ∷ fs) = (x ∷ f) ∷ fs

-- The fields of a text between the bytes `c`, empty ones included.
unfoldable pub fields : ℕ → Text → List Text
fields c [] = [] ∷ []
fields c (x ∷ s) = let rest = fields c s in if x == c then [] ∷ rest else cons_head x rest

abbrev pub is_full : Text → Bool
is_full s = not (is_nil s)

-- Where the next separator is, and what that says of the fields.
data Next (c i : ℕ) (r : Text) : Type 0 where
  last : find_from (c ∷ []) i r ≡ none → fields c r ≡ (r ∷ []) → Next c i r
  more :
      (k : ℕ)
      → find_from (c ∷ []) i r ≡ some (i + k)
      → k < length r
      → fields c r ≡ (take k r ∷ fields c (drop (suc k) r))
      → Next c i r

next : (c i : ℕ) (r : Text) → Next c i r
unfolding find_from fields
next c i [] = last refl refl
next c i (x ∷ r) = elim (Bool-cases (c == x)) [
  | inl here ↦ more 0 (ground arith) (omega arith) (ground arith)
  | inr other ↦ elim (next c (suc i) r) [
    | last none_found whole ↦ last (ground (arith, none_found)) (ground (arith, whole))
    | more k found lt split ↦
        more (suc k) (ground (arith, found)) (omega arith) (ground (arith, split))
  ]
]

push_keep :
    (t : Text) (tokens fs : List Text)
    → push_unless_empty t tokens ++ keep is_full fs ≡ tokens ++ keep is_full (t ∷ fs)
unfolding push_unless_empty
push_keep [] tokens fs = refl
push_keep (x ∷ t) tokens fs = simp append_assoc

push_last :
    (t : Text) (tokens : List Text) → push_unless_empty t tokens ≡ tokens ++ keep is_full (t ∷ [])
push_last t tokens = sym (append-nil (push_unless_empty t tokens)) ∙ push_keep t tokens []

-- One round at position `p`, by where the next separator is.
module _ (f c p : ℕ) (s : Text) (tokens : List Text) (inside : p ≤ length s) where
  abbrev r : Text
  r = drop p s

  round_last :
      find_from (c ∷ []) p r ≡ none
      → fields c r ≡ (r ∷ [])
      → split_loop (suc f) s (c ∷ []) p tokens ≡ some (tokens ++ keep is_full (fields c r))
  unfolding split_loop
  round_last none_found whole =
      rw (whole, ← push_last r tokens)
        (ground
          (arith, none_found, take_all (length s - p) (drop p s) (omega (arith, length-drop p s))))

  round_end :
      (k : ℕ)
      → find_from (c ∷ []) p r ≡ some (p + k)
      → length s ≤ p + k + 1
      → k < length r
      → fields c r ≡ (take k r ∷ fields c (drop (suc k) r))
      → split_loop (suc f) s (c ∷ []) p tokens ≡ some (tokens ++ keep is_full (fields c r))
  unfolding split_loop fields
  round_end k found over lt split =
      let ends : fields c (drop (suc k) r) ≡ ([] ∷ []) =
        ap (fields c) (drop_all (suc k) r (omega (arith, length-drop p s))) in
      let here : tokens ++ keep is_full (fields c r) ≡ push_unless_empty (take k r) tokens =
        rw (split, ends) (sym (push_keep (take k r) tokens ([] ∷ [])) ∙ append-nil _) in
      let same : p + k - p ≡ k = omega arith in rw here (ground (arith, found, same))

  round_more :
      (k : ℕ)
      → find_from (c ∷ []) p r ≡ some (p + k)
      → p + k + 1 < length s
      → split_loop (suc f) s (c ∷ []) p tokens
        ≡ split_loop f s (c ∷ []) (p + k + 1) (push_unless_empty (take k r) tokens)
  unfolding split_loop
  round_more k found inner = let same : p + k - p ≡ k = omega arith in ground (arith, found, same)

loop_fields :
    (f c p : ℕ) (s : Text) (tokens : List Text)
    → p ≤ length s
    → length s < f + p
    → split_loop f s (c ∷ []) p tokens ≡ some (tokens ++ keep is_full (fields c (drop p s)))
loop_fields zero c p s tokens inside enough = absurd (omega arith)
loop_fields (suc f) c p s tokens inside enough = elim (next c p (drop p s)) [
  | last none_found whole ↦ round_last f c p s tokens inside none_found whole
  | more k found lt split ↦ elim (Bool-cases (ltb (p + k + 1) (length s))) [
    | inr over ↦ round_end f c p s tokens inside k found (ground arith) lt split
    | inl inner ↦
        round_more f c p s tokens inside k found (ground arith)
        ∙ loop_fields f c (p + k + 1) s (push_unless_empty (take k (drop p s)) tokens)
            (ground arith) (omega arith)
        ∙ ap some (
            push_keep (take k (drop p s)) tokens (fields c (drop (p + k + 1) s))
            ∙ rw (split, drop-drop)
                (ap (λ m. tokens ++ keep is_full (take k (drop p s) ∷ fields c (drop m s)))
                  {x = p + k + 1} {y = p + suc k} (omega arith)))
  ]
]

-- For a delimiter of one byte `str_split` ends, and its tokens are the fields of the text between
-- the delimiters, in order, without the empty ones.
pub str_split-fields : (s : Text) (c : ℕ) → str_split s (c ∷ []) ≡ some (keep is_full (fields c s))
unfolding str_split
str_split-fields s c = loop_fields (suc (length s)) c 0 s [] (omega arith) (omega arith)
