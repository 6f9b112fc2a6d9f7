-- ===== src/Log/Logger/JsonList.antt =====
-- The list of an action's records in the JSON log, src/rvsliblogger.cpp.
use mathlib.Core.List.{append_assoc, append-nil}
use rocm_validation_suite.Prelude.{
  ℕ, ◌≡◌, ◌≤◌, Bool, true, false, ◌∙◌, sym, ap, List, [], ◌∷◌, ◌++◌, Text, codes, find-put_self,
  arith, All, is_nil, if◌then◌else◌,
}
use rocm_validation_suite.Log.Node.{Node, log_level, to_json, rvsendl, rvsindent, quoted}
use rocm_validation_suite.Log.Logger.Ops.{
  Env, Logger, content, write_out, to_file, json_action_start_node_create,
  json_action_end_node_create, log_record_flush,
}

unfoldable pub flush_all : Env → List Node → Logger → Logger
flush_all env [] l = l
flush_all env (r ∷ rs) l = flush_all env rs (log_record_flush env r l).0

-- A logger that writes JSON records of the levels up to `top` to a file that opens.
pub record IsWriting (env : Env) (top : ℕ) (l : Logger) : Type 0 where
  pub json : l.tojson_m ≡ true
  pub running : l.b_stop ≡ false
  pub level : l.loglevel_m ≡ top
  pub named : is_nil l.json_log_file ≡ false
  pub opens : env.opens l.json_log_file ≡ true

abbrev pub json_text : Logger → Text
json_text l = content l.json_log_file l.files

-- The rest of a list's rows, a comma before each.
unfoldable pub rows_after : List Node → Text
rows_after [] = []
rows_after (r ∷ rs) = codes "," ++ (to_json rvsindent r ++ rows_after rs)

-- The rows of a list, with a comma between two.
unfoldable pub rows : List Node → Text
rows [] = []
rows (r ∷ rs) = to_json rvsindent r ++ rows_after rs

abbrev pub IsShown : ℕ → Node → Type 0
IsShown top r = (log_level r ≤ 5) × (log_level r ≤ top)

-- One flush, as it is in such a state.
module _ (env : Env) (top : ℕ) (r : Node) (l : Logger) (w : IsWriting env top l)
    (shown : IsShown top r) where
  flush-IsWriting : IsWriting env top (log_record_flush env r l).0
  unfolding log_record_flush to_file write_out
  flush-IsWriting = ground arith

  flush_modes :
      ((log_record_flush env r l).0.append_m ≡ l.append_m)
      × ((log_record_flush env r l).0.isfirstrecord_m ≡ false)
  unfolding log_record_flush to_file write_out
  flush_modes = ground arith

  flush_first :
      l.append_m ≡ false
      → l.isfirstrecord_m ≡ true
      → json_text (log_record_flush env r l).0 ≡ json_text l ++ to_json rvsindent r
  unfolding log_record_flush to_file write_out
  flush_first a f = ground (
    arith,
    w.json,
    w.running,
    w.level,
    w.named,
    w.opens,
    a,
    f,
    find-put_self l.json_log_file (json_text l ++ to_json rvsindent r) l.files,
  )

  flush_later :
      l.isfirstrecord_m ≡ false
      → json_text (log_record_flush env r l).0 ≡ json_text l ++ (codes "," ++ to_json rvsindent r)
  unfolding log_record_flush to_file write_out
  flush_later f = ground (
    arith,
    w.json,
    w.running,
    w.level,
    w.named,
    w.opens,
    f,
    find-put_self l.json_log_file (json_text l ++ (codes "," ++ to_json rvsindent r)) l.files,
  )

  flush_appending :
      l.append_m ≡ true
      → json_text (log_record_flush env r l).0 ≡ json_text l ++ (codes "," ++ to_json rvsindent r)
  unfolding log_record_flush to_file write_out
  flush_appending f = ground (
    arith,
    w.json,
    w.running,
    w.level,
    w.named,
    w.opens,
    f,
    find-put_self l.json_log_file (json_text l ++ (codes "," ++ to_json rvsindent r)) l.files,
  )

flush_rest :
    (env : Env) (top : ℕ) (rs : List Node) (l : Logger)
    → IsWriting env top l
    → All (IsShown top) rs
    → l.isfirstrecord_m ≡ false
    → (json_text (flush_all env rs l) ≡ json_text l ++ rows_after rs)
      × IsWriting env top (flush_all env rs l)
unfolding flush_all rows_after
flush_rest env top [] l w shown f = (sym (append-nil (json_text l)), w)
flush_rest env top (r ∷ rs) l w shown f =
    let next = (log_record_flush env r l).0 in
    let (text, kept) =
      flush_rest env top rs next (flush-IsWriting env top r l w shown.0) shown.1
        (flush_modes env top r l w shown.0).1 in
    (
      text
          ∙ ap (λ t. t ++ rows_after rs) (flush_later env top r l w shown.0 f)
          ∙ append_assoc (json_text l) (codes "," ++ to_json rvsindent r) (rows_after rs),
      kept,
    )

flush_list :
    (env : Env) (top : ℕ) (rs : List Node) (l : Logger)
    → IsWriting env top l
    → All (IsShown top) rs
    → l.append_m ≡ false
    → l.isfirstrecord_m ≡ true
    → (json_text (flush_all env rs l) ≡ json_text l ++ rows rs)
      × IsWriting env top (flush_all env rs l)
unfolding flush_all rows
flush_list env top [] l w shown a f = (sym (append-nil (json_text l)), w)
flush_list env top (r ∷ rs) l w shown a f =
    let next = (log_record_flush env r l).0 in
    let (text, kept) =
      flush_rest env top rs next (flush-IsWriting env top r l w shown.0) shown.1
        (flush_modes env top r l w shown.0).1 in
    (
      text
          ∙ ap (λ t. t ++ rows_after rs) (flush_first env top r l w shown.0 a f)
          ∙ append_assoc (json_text l) (to_json rvsindent r) (rows_after rs),
      kept,
    )

-- What opens an action's list: a comma first, unless it is the first action.
unfoldable pub opening : Text → Bool → Text
opening action first =
    rvsendl ++ ((if first then [] else codes ",") ++ (rvsindent ++ (quoted action ++ codes ":[\n")))

module _ (env : Env) (top : ℕ) (name action : Text) (l : Logger) (w : IsWriting env top l)
    (started : l.init_module ≡ false) where
  abbrev begun : Logger
  begun = (json_action_start_node_create env name action l).0

  begun-IsWriting : IsWriting env top begun
  unfolding json_action_start_node_create to_file write_out
  begun-IsWriting = ground arith

  begun_modes : (begun.append_m ≡ l.append_m) × (begun.isfirstrecord_m ≡ true)
  unfolding json_action_start_node_create to_file write_out
  begun_modes = ground arith

  begun_text : json_text begun ≡ json_text l ++ opening action l.isfirstaction_m
  unfolding json_action_start_node_create to_file write_out opening
  begun_text = ground (
    arith,
    w.json,
    w.running,
    w.level,
    w.named,
    w.opens,
    started,
    find-put_self l.json_log_file (json_text l ++ opening action l.isfirstaction_m) l.files,
  )

end_text :
    (env : Env) (top : ℕ) (l : Logger)
    → IsWriting env top l
    → json_text (json_action_end_node_create env l).0 ≡ json_text l ++ (rvsindent ++ codes "]")
unfolding json_action_end_node_create to_file write_out
end_text env top l w = ground (
  arith,
  w.json,
  w.running,
  w.level,
  w.named,
  w.opens,
  find-put_self l.json_log_file (json_text l ++ (rvsindent ++ codes "]")) l.files,
)

-- What an action adds to the JSON log, if the log is open, its module is begun, no text is
-- appended to an old log and every record's level is shown: the opening of its list, its records
-- in order with a comma between two and none before the first, and the end of the list.
pub action_list :
    (env : Env) (top : ℕ) (name action : Text) (rs : List Node) (l : Logger)
    → IsWriting env top l
    → l.init_module ≡ false
    → l.append_m ≡ false
    → All (IsShown top) rs
    → json_text
        (json_action_end_node_create env
          (flush_all env rs (json_action_start_node_create env name action l).0)).0
      ≡ json_text l ++ (opening action l.isfirstaction_m ++ (rows rs ++ (rvsindent ++ codes "]")))
action_list env top name action rs l w started a shown =
    let modes = begun_modes env top name action l w started in
    let (text, kept) =
      flush_list env top rs (begun env top name action l w started)
        (begun-IsWriting env top name action l w started) shown (modes.0 ∙ a) modes.1 in
    end_text env top (flush_all env rs (begun env top name action l w started)) kept
    ∙ ap (λ t. t ++ (rvsindent ++ codes "]"))
        (text ∙ ap (λ t. t ++ rows rs) (begun_text env top name action l w started))
    ∙ append_assoc (json_text l ++ opening action l.isfirstaction_m) (rows rs)
        (rvsindent ++ codes "]")
    ∙ append_assoc (json_text l) (opening action l.isfirstaction_m)
        (rows rs ++ (rvsindent ++ codes "]"))

-- With `append` set, the first record of an action's list has a comma before it, right behind the
-- bracket that opens the list, if the log is open, its module is begun and the level is shown.
pub first_row_appended :
    (env : Env) (top : ℕ) (name action : Text) (r : Node) (l : Logger)
    → IsWriting env top l
    → l.init_module ≡ false
    → l.append_m ≡ true
    → IsShown top r
    → json_text (log_record_flush env r (json_action_start_node_create env name action l).0).0
      ≡ json_text l ++ (opening action l.isfirstaction_m ++ (codes "," ++ to_json rvsindent r))
first_row_appended env top name action r l w started a shown =
    let b = begun env top name action l w started in
    flush_appending env top r b (begun-IsWriting env top name action l w started) shown
      ((begun_modes env top name action l w started).0 ∙ a)
    ∙ ap (λ t. t ++ (codes "," ++ to_json rvsindent r)) (begun_text env top name action l w started)
    ∙ append_assoc (json_text l) (opening action l.isfirstaction_m)
        (codes "," ++ to_json rvsindent r)
