-- ===== src/Pesm/Numbered.antt =====
-- `std::map<uint16_t, std::string>`, kept in the order of its keys.
use rocm_validation_suite.Prelude.{
  ℕ, List, [], ◌∷◌, Text, ◌==◌, ltb, if◌then◌else◌, ◌≡◌, refl, arith,
}

abbrev pub Numbered : Type 0
Numbered = List (ℕ × Text)

-- m[k], for which a missing entry counts as empty
unfoldable pub lookup : ℕ → Numbered → Text
lookup k [] = []
lookup k ((j, v) ∷ m) = if j == k then v else lookup k m

-- m[k] = v
unfoldable pub assign : ℕ → Text → Numbered → Numbered
assign k v [] = (k, v) ∷ []
assign k v ((j, w) ∷ m) =
    if j == k then (k, v) ∷ m else if ltb k j then (k, v) ∷ (j, w) ∷ m else (j, w) ∷ assign k v m

pub lookup-assign :
    (k j : ℕ) (v : Text) (m : Numbered)
    → lookup j (assign k v m) ≡ (if k == j then v else lookup j m)
unfolding lookup assign
lookup-assign k j v [] = refl
lookup-assign k j v ((i, w) ∷ m) = ground (arith, lookup-assign k j v m)
