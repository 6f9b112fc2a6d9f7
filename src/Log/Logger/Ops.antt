-- ===== src/Log/Logger/Ops.antt =====
-- The operations of `rvs::logger`, src/rvsliblogger.cpp.
use Prim.Native.Nat.{bit_or}
use rocm_validation_suite.Prelude.{
  ℕ, zero, suc, ◌-◌, Bool, true, false, not, ◌&&◌, ◌||◌, none, some, [], ◌++◌, Text, codes, Map,
  find, put, length, take, is_nil, ltb, ◌==◌, if◌then◌else◌,
}
use rocm_validation_suite.Util.Number.{to_string}
use rocm_validation_suite.Log.Node.{
  Node, log_node_rec, log_node_string, min_node, nil, add, log_level, time_text, quoted, to_json,
  rvsendl, rvsindent,
}

-- What the file system and the clock answer: which files open, the time, and `json_filename()`.
pub record Env : Type 0 where
  pub opens : Text → Bool
  pub ticks : ℕ × ℕ
  pub json_filename : Text

pub record Logger : Type 0 where
  pub loglevel_m : ℕ
  pub tojson_m : Bool
  pub append_m : Bool
  pub isfirstrecord_m : Bool
  pub init_module : Bool
  pub isfirstaction_m : Bool
  pub b_stop : Bool
  pub stop_flags : ℕ
  pub b_quiet : Bool
  pub log_file : Text
  pub json_log_file : Text
  pub cout : Text
  pub cerr : Text
  pub files : Map Text

-- The values that are returned, 0 and -1.
pub data Ret : Type 0 where
  zero_ret minus_one : Ret

abbrev pub content : Text → Map Text → Text
content path files = elim (find path files) [ none ↦ [] | some s ↦ s ]

-- `fs.open(path, out | app); fs << row;`
unfoldable pub write_out : Text → Text → Logger → Logger
write_out path row l = record l { files = put path (content path l.files ++ row) l.files }

module _ (env : Env) where
  unfoldable pub to_file : Text → Bool → Logger → Logger × Ret
  unfolding write_out
  to_file row json_rec l =
      let logfile = if json_rec then l.json_log_file else l.log_file in
      if l.b_stop && not (l.stop_flags == 0)
      then (l, zero_ret)
      else if is_nil logfile
      then (l, minus_one)
      else if env.opens logfile
      then (write_out logfile row l, zero_ret)
      else (l, minus_one)

-- `Err` with a module and no action.
unfoldable pub err : Text → Text → Logger → Logger
err message name l = record l {
  cerr = l.cerr ++ (codes "RVS-ERROR [" ++ (name ++ (codes "] " ++ (message ++ rvsendl))));
}

level_name : ℕ → Text
level_name zero = codes "NONE  "
level_name (suc zero) = codes "RESULT"
level_name (suc (suc zero)) = codes "ERROR "
level_name (suc (suc (suc zero))) = codes "INFO  "
level_name (suc (suc (suc (suc zero)))) = codes "DEBUG "
level_name _ = codes "TRACE "

module _ (env : Env) where
  log_row : Text → ℕ → ℕ → ℕ → Text
  unfolding level_name
  log_row message level sec usec =
      let t =
        if not (bit_or sec usec == 0)
        then time_text sec usec
        else time_text env.ticks.0 env.ticks.1 in
      codes "[" ++ (level_name level ++ (codes "] [" ++ (t ++ (codes "] " ++ message))))

  to_screen : Text → Logger → Logger
  to_screen row l = if l.b_quiet then l else record l { cout = l.cout ++ (row ++ rvsendl) }

  -- The end of `LogExt`, for a row that is not for a JSON log.
  log_to_file : Text → Logger → Logger
  log_to_file row l =
      if l.isfirstrecord_m
      then (to_file env row false (record l { isfirstrecord_m = false })).0
      else (to_file env (rvsendl ++ row) false l).0

  unfoldable pub log_ext : Text → ℕ → ℕ → ℕ → Logger → Logger × Ret
  unfolding log_row to_screen log_to_file err
  log_ext message level sec usec l =
      if l.b_stop && not (l.stop_flags == 0)
      then (l, zero_ret)
      else if ltb 5 level
      then (err (codes "unknown logging level: " ++ to_string level) (codes "CLI") l, minus_one)
      else if ltb l.loglevel_m level
      then (l, zero_ret)
      else let row = log_row message level sec usec in
        let shown = to_screen row l in
        if shown.tojson_m then (shown, zero_ret) else (log_to_file row shown, zero_ret)

  -- A name is made for the JSON log where there is none, and shown.
  name_json_log : Logger → Logger
  name_json_log l =
      if is_nil l.json_log_file
      then record l {
        json_log_file = env.json_filename;
        cout = l.cout ++ (codes "json log file is " ++ (env.json_filename ++ rvsendl));
      }
      else l

  unfoldable pub json_start_node_create : Text → Text → Logger → Logger × Ret
  unfolding name_json_log quoted
  json_start_node_create name action l =
      to_file env
        (codes "{\n"
          ++ (quoted (codes "version")
              ++ (codes ":"
                  ++ (quoted (codes "1.0") ++ (codes ",\n" ++ (quoted name ++ codes ":{\n"))))))
        true (name_json_log l)

  start_module : Text → Text → Logger → Logger
  start_module name action l =
      if l.init_module || is_nil l.json_log_file
      then record ((json_start_node_create name action l).0) { init_module = false }
      else l

  -- What opens the list of an action's records.
  action_row : Text → Bool → Text
  unfolding quoted
  action_row action first =
      rvsendl
      ++ ((if first then [] else codes ",") ++ (rvsindent ++ (quoted action ++ codes ":[\n")))

  unfoldable pub json_action_start_node_create : Text → Text → Logger → Logger × Ret
  unfolding start_module action_row
  json_action_start_node_create name action l =
      let l' = record (start_module name action l) { isfirstrecord_m = true } in
      to_file env (action_row action l'.isfirstaction_m) true
        (record l' { isfirstaction_m = false })

  unfoldable pub json_action_end_node_create : Logger → Logger × Ret
  json_action_end_node_create l = to_file env (rvsindent ++ codes "]") true l

  unfoldable pub json_end_node_create : Logger → Logger × Ret
  json_end_node_create l =
      if is_nil l.json_log_file
      then (l, minus_one)
      else to_file env (rvsindent ++ (rvsindent ++ codes "}\n}")) true l

  unfoldable pub log_record_create : Text → Text → ℕ → ℕ → ℕ → Bool → Logger → Logger × Node
  unfolding name_json_log level_name
  log_record_create name action level sec usec minimal l =
      let t = if not (bit_or sec usec == 0) then (sec, usec) else env.ticks in
      let rec = log_node_rec action level t.0 t.1 nil in
      let rec = add rec (log_node_string (codes "action") action) in
      let rec = add rec (log_node_string (codes "module") name) in
      let rec = add rec (
        log_node_string (codes "loglevelname")
          (if ltb level 5 then level_name level else codes "UNKNOWN")) in
      if minimal then (name_json_log l, min_node action level false nil) else (name_json_log l, rec)

  unfoldable pub log_record_flush : Node → Logger → Logger × Ret
  unfolding err
  log_record_flush r l =
      if not l.tojson_m
      then (l, zero_ret)
      else if ltb 5 (log_level r)
      then (
        err (codes "unknown logging level: " ++ to_string (log_level r)) (codes "CLI") l,
        minus_one,
      )
      else if ltb l.loglevel_m (log_level r)
      then (l, zero_ret)
      else let comma = if l.append_m || not l.isfirstrecord_m then codes "," else [] in
        (
          record ((to_file env (comma ++ to_json rvsindent r) true l).0) {
            isfirstrecord_m = false;
          },
          zero_ret,
        )

  -- The last byte becomes a blank; in an empty file a blank is written.
  unfoldable pub json_patch_append : Logger → Logger × Ret
  json_patch_append l = elim (find l.json_log_file l.files) [
    | none ↦ (l, minus_one)
    | some s ↦
        if env.opens l.json_log_file
        then (
          record l { files = put l.json_log_file (take (length s - 1) s ++ codes " ") l.files },
          zero_ret,
        )
        else (l, minus_one)
  ]

  after_patch : Logger → Ret → Logger × Ret
  after_patch l minus_one = (l, minus_one)
  after_patch l zero_ret = ((to_file env [] false l).0, zero_ret)

  open_appended : Logger → Logger × Ret
  unfolding json_patch_append after_patch
  open_appended l =
      if l.tojson_m
      then after_patch (json_patch_append l).0 (json_patch_append l).1
      else ((to_file env [] false l).0, zero_ret)

  open_truncated : Logger → Logger × Ret
  open_truncated l =
      if env.opens l.log_file
      then (
        (to_file env (if l.tojson_m then codes "[" else []) false
            (record l { files = put l.log_file [] l.files })).0,
        zero_ret,
      )
      else (l, minus_one)

  unfoldable pub init_log_file : Logger → Logger × Ret
  unfolding open_appended open_truncated
  init_log_file l =
      let l' = record l { isfirstrecord_m = true; b_stop = false; stop_flags = 0 } in
      if is_nil l'.log_file
      then (l', zero_ret)
      else if l'.append_m
      then open_appended l'
      else open_truncated l'

  unfoldable pub terminate : Logger → Logger × Ret
  terminate l =
      if is_nil l.log_file
      then (l, zero_ret)
      else ((to_file env (rvsendl ++ (if l.tojson_m then codes "]" else [])) false l).0, zero_ret)

  unfoldable pub stop : ℕ → Logger → Logger
  unfolding terminate
  stop flags l = (terminate (record l { b_stop = true; stop_flags = flags })).0

unfoldable pub stopping : Logger → Bool
stopping l = l.b_stop
