-- ===== src/Cli/Loop.antt =====
-- The parser's state and its loop, rvs/src/rvscli.cpp.
use rocm_validation_suite.Prelude.{
  ℕ, zero, suc, ◌+◌, Bool, true, false, Option, none, some, List, [], ◌∷◌, ◌++◌, Text, codes, Map,
  find, put, length, take, is_nil, if◌then◌else◌, ◌==◌, ◌||◌,
}
use rocm_validation_suite.Cli.Grammar.{EContext, eof, value, optionalvalue, command, grammar}

pub record Cli : Type 0 where
  pub rest : List Text
  pub errstr : Text
  pub current_option : Text
  pub current_value : Text
  pub context : List EContext
  pub opt : Map Text

-- `if (itoken >= argc) return ""; return argv[itoken++];`
next_token : List Text → Cli → Text × Cli
next_token [] c = ([], c)
next_token (t ∷ ts) c = (t, record c { rest = ts })

unfoldable pub get_token : Cli → Text × Cli
unfolding next_token
get_token c = next_token c.rest c

unfoldable pub emit_option : Cli → Cli
emit_option c =
    let emitted =
      if is_nil c.current_option then c.opt else put c.current_option c.current_value c.opt in
    record c { opt = emitted; current_option = []; current_value = [] }

unfoldable pub try_command : Text → Cli → Cli × Bool
unfolding emit_option
try_command token c = elim (find token grammar) [
  | none ↦ (c, false)
  | some it ↦ (record (emit_option c) { current_option = it.name; context = it.new_context }, true)
]

unfoldable pub try_value : Text → Cli → Cli × Bool
unfolding emit_option
try_value [] c = (c, false)
try_value (x ∷ token) c = elim (find (x ∷ token) grammar) [
  | some it ↦ (c, false)
  | none ↦ (emit_option (record c { current_value = x ∷ token }), true)
]

unfoldable pub try_optionalvalue : Text → Cli → Cli × Bool
unfolding emit_option
try_optionalvalue [] c = (c, true)
try_optionalvalue (x ∷ token) c = elim (find (x ∷ token) grammar) [
  | some it ↦ (c, false)
  | none ↦ (emit_option (record c { current_value = x ∷ token }), true)
]

-- The two values that `parse` returns, 0 and -1.
pub data Status : Type 0 where
  success failure : Status

-- How the handling of one token ends. `underflow` is `top()` of an empty stack.
pub data Scan : Type 0 where
  consumed : Cli → Scan
  returned : Status → Cli → Scan
  underflow : Scan

at_eof : Text → Cli → Scan
unfolding emit_option
at_eof [] c = returned success (emit_option c)
at_eof (x ∷ token) c =
    returned failure
      (record c { errstr = codes "unexpected command line argument: " ++ (x ∷ token) })

-- `while (!token_done)`: each round pops the stack.
unfoldable pub scan_token : List EContext → Text → Cli → Scan
unfolding at_eof try_command try_value try_optionalvalue
scan_token [] token c = underflow
scan_token (command ∷ below) token c =
    let (c', token_done) = try_command token (record c { context = below }) in
    if token_done then consumed c' else scan_token below token c'
scan_token (value ∷ below) token c =
    let (c', token_done) = try_value token (record c { context = below }) in
    if token_done
    then consumed c'
    else returned failure
        (record c' { errstr = codes "syntax error: value expected after " ++ c'.current_option })
scan_token (optionalvalue ∷ below) token c =
    let (c', token_done) = try_optionalvalue token (record c { context = below }) in
    if token_done then consumed c' else scan_token below token c'
scan_token (eof ∷ below) token c = at_eof token (record c { context = below })

-- `for (;;)`; the outer `none` means that the fuel ran out, the inner one an empty stack.
unfoldable pub parse_loop : ℕ → Cli → Option (Option (Status × Cli))
unfolding get_token scan_token
parse_loop zero c = none
parse_loop (suc fuel) c =
    let (token, c') = get_token c in
    elim (scan_token c'.context token c') [
      | consumed c'' ↦ parse_loop fuel c''
      | returned status c'' ↦ some (some (status, c''))
      | underflow ↦ some none
    ]

-- `substr(0, find_last_of("/\\"))`: the whole text if there is no separator.
last_separator : ℕ → Text → Option ℕ → Option ℕ
last_separator i [] found = found
last_separator i (x ∷ s) found =
    last_separator (suc i) s (if (x == b'/') || (x == 92) then some i else found)

unfoldable pub extract_path : Option Text → Map Text → Map Text
unfolding last_separator
extract_path none opt = opt
extract_path (some argv0) opt = elim (last_separator 0 argv0 none) [
  | none ↦ put (codes "pwd") (argv0 ++ codes "/") opt
  | some found ↦ put (codes "pwd") (take found argv0 ++ codes "/") opt
]

-- `args` is argv[1], argv[2], …; `exe` is what `readlink` gives, if it does not fail.
unfoldable pub parse : Option Text → List Text → Map Text → Option (Option (Status × Cli))
unfolding parse_loop extract_path
parse exe args opt = parse_loop (length args + 3) (record {
  rest = args;
  errstr = [];
  current_option = [];
  current_value = [];
  context = command ∷ eof ∷ [];
  opt = extract_path exe opt;
})
