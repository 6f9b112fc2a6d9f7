-- ===== src/Log/Logger/ListNested.antt =====
-- The list of an action's records is well nested JSON text, src/rvsliblogger.cpp.
use mathlib.Core.List.{append_assoc}
use rocm_validation_suite.Prelude.{
  ℕ, ◌≡◌, refl, ◌∙◌, ap, Bool, true, false, some, List, [], ◌∷◌, ◌++◌, Text, codes, All, arith,
}
use rocm_validation_suite.Log.Node.{Node, to_json, rvsindent, quoted}
use rocm_validation_suite.Log.Node.Nested.{
  walk, outside, IsPlain, IsClean, Still, pass, quoted-Still, to_json_nested,
}
use rocm_validation_suite.Log.Logger.JsonList.{rows, rows_after, opening}

row-Still : (r : Node) → IsClean r → Still (to_json (codes "  ") r)
row-Still r h o = to_json_nested (codes "  ") r o (omega arith) h

rows_after-Still : (rs : List Node) → All IsClean rs → Still (rows_after rs)
unfolding rows_after walk
rows_after-Still [] h o = refl
rows_after-Still (r ∷ rs) h o =
    pass (to_json (codes "  ") r) (rows_after rs) o (row-Still r h.0) ∙ rows_after-Still rs h.1 o

rows-Still : (rs : List Node) → All IsClean rs → Still (rows rs)
unfolding rows walk
rows-Still [] h o = refl
rows-Still (r ∷ rs) h o =
    pass (to_json (codes "  ") r) (rows_after rs) o (row-Still r h.0) ∙ rows_after-Still rs h.1 o

walk-opening :
    (action : Text) (first : Bool) (t : Text) (o : List ℕ)
    → IsPlain action
    → walk (opening action first ++ t) (outside o) ≡ walk t (outside (b'[' ∷ o))
unfolding opening walk
walk-opening action true t o h =
    ap (λ s. walk s (outside o)) (append_assoc (quoted action) (codes ":[\n") t)
    ∙ pass (quoted action) (codes ":[\n" ++ t) o (quoted-Still action h)
walk-opening action false t o h =
    ap (λ s. walk s (outside o)) (append_assoc (quoted action) (codes ":[\n") t)
    ∙ pass (quoted action) (codes ":[\n" ++ t) o (quoted-Still action h)

-- The text that an action adds to the JSON log, its list opened, filled and ended, is well nested,
-- if the action's name and the texts in its records hold no quote and no backslash.
pub action_list_nested :
    (action : Text) (first : Bool) (rs : List Node) (opened : List ℕ)
    → IsPlain action
    → All IsClean rs
    → walk (opening action first ++ (rows rs ++ (rvsindent ++ codes "]"))) (outside opened)
      ≡ some (outside opened)
unfolding walk
action_list_nested action first rs o h clean =
    walk-opening action first (rows rs ++ (rvsindent ++ codes "]")) o h
    ∙ pass (rows rs) (codes "  ]") (b'[' ∷ o) (rows-Still rs clean)
